-- ===== src/Echo/Server.antt =====
-- The connections of example/echo-server.cc, over the streams that they own.
use what_the_event.Common.{ℕ, some, Bool, Outcome, ok, ◌>>=◌, List, [], ◌∷◌}
use what_the_event.Events.What.{What}
use what_the_event.Stream.Requests.{Requests}
use what_the_event.Stream.State.{
  Stream, start_read, stop_read, write_buffer, close, destroy, wrap_fd,
}
use what_the_event.Stream.Reading.{User}
use what_the_event.Stream.Connecting.{Answers, ready}

-- The callbacks of a connection, `read_cb` and `write_cb`.
abbrev pub read_cb : ℕ
read_cb = 1

abbrev pub write_cb : ℕ
write_cb = 2

-- `acceptCb`: a new connection, that starts to read.
unfoldable pub accept_connection : ℕ → Stream
accept_connection fd = start_read (wrap_fd fd) read_cb

-- `EchoReadCallback::available`: `conn_->stream->write(buf, wcb_)`, with the buffer of the stream
-- itself. `place` is where `new` puts the request.
unfoldable pub on_available : (Requests → ℕ) → User
on_available place c s = do
  r ← write_buffer s (place s.requests) s.read_buffer (some write_cb)
  ok (record r.0 { read_buffer = r.1 })

-- `delete conn_`, on the end of the stream and on errors: the destructor of `Connection`, and that of
-- the stream.
unfoldable pub delete_connection : ℕ → Stream → Outcome Stream
delete_connection fuel s = destroy fuel (close (stop_read s))

-- Events of the loop, one after the other.
unfoldable pub serve :
    (Requests → ℕ) → (ℕ → Bool) → ℕ → List (What × Answers) → Stream → Outcome Stream
unfolding on_available
serve place alloc fuel [] s = ok s
serve place alloc fuel ((event, answers) ∷ events) s = do
  s' ← ready answers (on_available place) alloc fuel event s
  serve place alloc fuel events s'
