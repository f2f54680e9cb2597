-- ===== src/GinUtil/Fake.antt =====
-- internal/ginutil/context.go: the response writer for tests. The recorder that it embeds is of any
-- type, and has the methods that the writer does not declare.
use tinkerbell_hegel.Prelude.{ℕ, Bool, false, Option, none, ◌≡◌, refl}
use tinkerbell_hegel.Errors.{GoError}
use tinkerbell_hegel.Logger
use tinkerbell_hegel.Logger.{Handled, Values, info, path_of}

-- `FakeResponseWriter`
pub record FakeResponseWriter (Recorder : Type 0) : Type 0 where
  pub response_recorder : Recorder

module _ {Recorder : Type 0} where
  -- `none` is a nil channel, connection, buffer, pusher or error.
  unfoldable close_notify : {Channel : Type 0} → FakeResponseWriter Recorder → Option Channel
  close_notify w = none

  unfoldable hijack :
      {Conn Buffer : Type 0}
      → FakeResponseWriter Recorder
      → Option Conn × Option Buffer × Option GoError
  hijack w = (none, none, none)

  unfoldable pusher : {Pusher : Type 0} → FakeResponseWriter Recorder → Option Pusher
  pusher w = none

  unfoldable size : FakeResponseWriter Recorder → ℕ
  size w = 0

  unfoldable status : FakeResponseWriter Recorder → ℕ
  status w = 0

  unfoldable written : FakeResponseWriter Recorder → Bool
  written w = false

  -- the writer that is left
  unfoldable write_header_now : FakeResponseWriter Recorder → FakeResponseWriter Recorder
  write_header_now w = w

  -- A request whose writer is a fake one is logged as an information of status 0, whatever was
  -- recorded.
  middleware-status :
      {Duration : Type 0} (w : FakeResponseWriter Recorder) (c : Handled Duration)
      → Logger.middleware (record c { status = status w })
        ≡ info (record {
          client_ip = c.client_ip;
          method = c.method;
          status_code = 0;
          path = path_of c.url;
          latency = c.latency;
        })
  unfolding Logger.middleware status
  middleware-status w c = refl
