-- ===== src/Sockets.antt =====
-- The table of sockets, qstack/src/socket.c with qstack/src/include/socket.h. A socket is its number;
-- a TAILQ of sys/queue.h is the list of its sockets. A socket's epoll instance is its qfd.
pub mod Pools
pub mod Runs
pub mod Listed
pub mod Listeners
pub mod Tests
use qstack.Common.{
  ℕ, zero, suc, ◌+◌, ◌-◌, ◌*◌, ◌/◌, Bool, true, false, Option, none, some, List, [], ◌∷◌, ◌++◌,
  ◌==◌, ltb, if◌then◌else◌, update, Ptr, null, not, ◌&&◌,
}

pub data SockType : Type 0 where
  unused : SockType
  stream : SockType
  listener : SockType

abbrev pub is_unused : SockType → Bool
is_unused SockType.unused = true
is_unused _ = false

pub record Address : Type 0 where
  pub sin_port : ℕ
  pub sin_addr : ℕ

abbrev no_address : Address
no_address = record { sin_port = 0; sin_addr = 0 }

-- `struct socket`.
pub record Entry : Type 0 where
  pub id : ℕ
  pub socktype : SockType
  pub default_app : ℕ
  pub opts : ℕ
  pub epoll : ℕ
  pub qe : Option ℕ
  pub stream : Ptr
  pub saddr : Address
  pub daddr : Address

-- `resets` are the calls of `qepoll_reset`, newest first.
pub record SocketTable : Type 0 where
  pub sockets : ℕ → Entry
  pub free_socket : ℕ → List ℕ
  pub free_num : ℕ → ℕ
  pub free_socket_public : List ℕ
  pub free_public_num : ℕ
  pub resets : List (ℕ × ℕ)

pub record Config : Type 0 where
  pub max_socket_num : ℕ
  pub max_stack_num : ℕ
  pub stack_thread : ℕ
  pub max_concurrency : ℕ

-- Memory of `calloc`.
abbrev pub zeroed_entry : Entry
zeroed_entry = record {
  id = 0;
  socktype = SockType.unused;
  default_app = 0;
  opts = 0;
  epoll = 0;
  qe = none;
  stream = null;
  saddr = no_address;
  daddr = no_address;
}

abbrev pub zeroed_table : SocketTable
zeroed_table = record {
  sockets = λ i. zeroed_entry;
  free_socket = λ c. [];
  free_num = λ c. 0;
  free_socket_public = [];
  free_public_num = 0;
  resets = [];
}

-- The socket `i`, now `e`, at the end of the list of a core.
abbrev pub give : ℕ → ℕ → Entry → SocketTable → SocketTable
give core i e t = record t {
  sockets = update t.sockets i e;
  free_socket = update t.free_socket core (t.free_socket core ++ (i ∷ []));
  free_num = update t.free_num core (t.free_num core + 1);
}

abbrev pub fresh : ℕ → Entry → Entry
fresh i e = record e {
  id = i;
  qe = none;
  socktype = SockType.unused;
  saddr = no_address;
  stream = null;
}

-- The inner loop from `i` on, and the loop over the cores from `core` on.
unfoldable pub fill_core : ℕ → ℕ → ℕ → SocketTable → SocketTable
fill_core core i zero t = t
fill_core core i (suc n) t = fill_core core (i + 1) n (give core i (fresh i (t.sockets i)) t)

unfoldable pub init_cores : ℕ → ℕ → ℕ → SocketTable → SocketTable
init_cores chunk_num core zero t = t
init_cores chunk_num core (suc n) t =
    init_cores chunk_num (core + 1) n (fill_core core (core * chunk_num) chunk_num t)

-- PUB_SOCKET_NUM is 0, so that the public pool stays empty.
unfoldable pub socket_table_init : Config → Option SocketTable
socket_table_init config =
    if ltb config.max_socket_num config.max_concurrency
    then none
    else some (
        init_cores (config.max_socket_num / config.stack_thread) 0 config.stack_thread zeroed_table)

-- A socket that has been taken off its list.
abbrev pub in_use : SockType → Entry → Entry
in_use socktype e = record e {
  socktype = socktype;
  opts = 0;
  epoll = 0;
  qe = none;
  stream = null;
  saddr = no_address;
  daddr = no_address;
}

unfoldable pub alloc_public : SockType → List ℕ → SocketTable → Option ℕ × SocketTable
alloc_public socktype [] t = (none, t)
alloc_public socktype (i ∷ rest) t = (
  some i,
  record t {
    sockets = update t.sockets i (in_use socktype (t.sockets i));
    free_socket_public = rest;
    free_public_num = t.free_public_num - 1;
  },
)

unfoldable pub alloc_core : ℕ → SockType → List ℕ → SocketTable → Option ℕ × SocketTable
alloc_core core_id socktype [] t = (none, t)
alloc_core core_id socktype (i ∷ rest) t = (
  some i,
  record t {
    sockets = update t.sockets i (in_use socktype (t.sockets i));
    free_socket = update t.free_socket core_id rest;
    free_num = update t.free_num core_id (t.free_num core_id - 1);
  },
)

unfoldable pub socket_alloc : Config → ℕ → SockType → SocketTable → Option ℕ × SocketTable
socket_alloc config core_id socktype t =
    if ltb core_id config.stack_thread
    then alloc_core core_id socktype (t.free_socket core_id) t
    else alloc_public socktype t.free_socket_public t

abbrev reset : Option ℕ → ℕ → List (ℕ × ℕ) → List (ℕ × ℕ)
reset none sockid calls = calls
reset (some qfd) sockid calls = (qfd, sockid) ∷ calls

-- A socket that is not in use ends the process. The two numbers are indices of arrays that the
-- function does not look at: a number past the end writes over memory the model does not describe.
unfoldable pub socket_free : Config → ℕ → ℕ → SocketTable → Option SocketTable
socket_free config core_id sockid t =
    let e = t.sockets sockid in
    let e' = record e { socktype = SockType.unused; epoll = 0; qe = none; stream = null } in
    if not (ltb sockid config.max_socket_num && ltb core_id config.max_stack_num)
    then none
    else if is_unused e.socktype
    then none
    else some (record (give core_id sockid e' t) { resets = reset e.qe sockid t.resets })
