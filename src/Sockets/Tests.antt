-- ===== src/Sockets/Tests.antt =====
-- A table of four sockets for two cores, and the theorems on it.
use qstack.Common.{refl, ◌≡◌, [], ◌∷◌, OnSome, ◌>>=◌, arith}
use qstack.Sockets.{
  SockType, Config, SocketTable, init_cores, zeroed_table, socket_alloc, socket_table_init,
  alloc_core, socket_free, fill_core,
}
use qstack.Sockets.Pools.{IsSound, init_cores-IsSound, zeroed_table-IsSound}
use qstack.Sockets.Runs.{Request, run}
use qstack.Sockets.Listed.{IsKept, shared, run-IsKept}

abbrev config : Config
config = record { max_socket_num = 4; max_stack_num = 8; stack_thread = 2; max_concurrency = 3 }

abbrev four_sockets : SocketTable
four_sockets = init_cores 2 0 2 zeroed_table

four_sockets-IsSound : IsSound four_sockets
four_sockets-IsSound =
    init_cores-IsSound 2 0 2 zeroed_table zeroed_table-IsSound (λ c i h. absurd (ground arith))

-- A socket of core 1 is released by core 0.
run-IsKept_example : OnSome (IsKept (shared config)) (
    socket_table_init config
    >>= run config (Request.alloc 1 SockType.stream ∷ Request.free 0 2 ∷ []))
run-IsKept_example =
    run-IsKept config (Request.alloc 1 SockType.stream ∷ Request.free 0 2 ∷ []) (refl, (tt, tt))

-- It takes the end of the list of core 0.
moved :
    OnSome
      (λ t. (t.free_socket 0 ≡ 0 ∷ 1 ∷ 2 ∷ []) × (t.free_socket 1 ≡ 3 ∷ []))
      (run config (Request.alloc 1 SockType.stream ∷ Request.free 0 2 ∷ []) four_sockets)
unfolding socket_alloc alloc_core socket_free init_cores fill_core
moved = (refl, refl)
