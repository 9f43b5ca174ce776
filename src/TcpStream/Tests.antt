-- ===== src/TcpStream/Tests.antt =====
-- A concrete stream that ends.
use qstack.Common.{OnSome, arith, [], ◌∷◌, refl}
use qstack.Timer.{put}
use qstack.Timer.Invariant.{IsValid}
use qstack.TcpStream.Conn.{Conn}
use qstack.TcpStream.Samples.{env, stream, idle, host}
use qstack.TcpStream.Life.{tcp_stream_destroy}
use qstack.TcpStream.Ends.{Ended, tcp_stream_destroy-Ended}

-- The stream waits for an acknowledgement.
abbrev waiting : Conn
waiting = record stream {
  own = record idle { on_rto_idx = 1 };
  host = record host { timers = record (host.timers) { rto_list = 64 ∷ [] } };
}

waiting-IsValid : IsValid (put (waiting.host).timers 64 waiting.own)
waiting-IsValid = record {
  rto = record { marks = λ q. ground arith; distinct = (refl, tt) };
  timewait = record { marks = λ q. ground arith; distinct = tt };
  timeout = record { marks = λ q. ground arith; distinct = tt };
  apart = λ q. ground arith;
}

tcp_stream_destroy-Ended_example : OnSome (Ended waiting) (tcp_stream_destroy env waiting)
tcp_stream_destroy-Ended_example = tcp_stream_destroy-Ended env waiting waiting-IsValid
