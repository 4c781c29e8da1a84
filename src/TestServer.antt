-- ===== src/TestServer.antt =====
-- src/test_server.rs: the test server, its client loop and its probe, and its log, which it shares with
-- the manager. What the sockets and the clock give is an argument.
pub mod Echo
pub mod Lost
use p2p_core.Base.{
  ℕ, List, Option, String, [], drop, if◌then◌else◌, length, ltb, none, some, take, ◌++◌, ◌-◌, ◌∷◌,
}
use p2p_core.Base.Words.{Bytes}
use p2p_core.Models.{NetworkStatus}
use p2p_core.Text.{show_nat, ◌⧺◌}
use p2p_core.Text.Chars.{Chars, trim_chars}
use p2p_core.Text.Chars.Native.{to_string}
use p2p_core.Text.Encodings.{chars_of}
use p2p_core.Text.Numbers.{decimal}
use p2p_core.Text.Utf8.{codes, from_utf8_lossy}
use p2p_core.Text.Utf8.Encode.{utf8}
use p2p_core.Manager.Sessions.{Result, done, failed}

abbrev pub server_log_limit : ℕ
server_log_limit = 240

-- The entry comes last, and the first ones go.
unfoldable pub log_status : String → NetworkStatus → NetworkStatus
log_status message s =
    let logs : List String = s.logs ++ (message ∷ []) in
    record s {
      logs =
          if ltb server_log_limit (length logs)
          then drop (length logs - server_log_limit) logs
          else logs;
    }

pub record TestServerInfo : Type 0 where
  pub bind_addr : String
  pub protocol : String

-- The running server, if there is one, and the status.
pub record TestServers : Type 0 where
  pub runtime : Option TestServerInfo
  pub status : NetworkStatus

abbrev stopped_logs : TestServerInfo → NetworkStatus → NetworkStatus
stopped_logs info s =
    log_status ("Тестовый сервер " ⧺ info.bind_addr ⧺ " остановлен вручную.")
      (log_status "Тестовый сервер остановлен." s)

-- The task is cancelled and awaited, so that its last entry comes first.
stop_runtime : Option TestServerInfo → TestServers → TestServers
stop_runtime none w = w
stop_runtime (some info) w = record { runtime = none; status = stopped_logs info w.status }

unfoldable pub stop : TestServers → TestServers
unfolding stop_runtime log_status
stop w = stop_runtime w.runtime w

abbrev started_log : TestServerInfo → NetworkStatus → NetworkStatus
started_log info =
    log_status
      ("Тестовый сервер запущен на " ⧺ info.bind_addr ⧺ ". Протокол: " ⧺ info.protocol ⧺ ".")

abbrev test_server_info : String → TestServerInfo
test_server_info addr = record { bind_addr = addr; protocol = "echo-timestamp" }

-- The listener on the port, by its address. The first entry of the task is taken at its start.
start_bound : ℕ → Result String → TestServers → Result TestServerInfo × TestServers
start_bound port (failed e) w =
    (failed ("не удалось запустить тестовый сервер на 127.0.0.1:" ⧺ show_nat port ⧺ ": " ⧺ e), w)
start_bound port (done addr) w = (
  done (test_server_info addr),
  record {
    runtime = some (test_server_info addr);
    status = started_log (test_server_info addr) w.status;
  },
)

unfoldable pub start : ℕ → Result String → TestServers → Result TestServerInfo × TestServers
unfolding start_bound stop show_nat
start port bound w = start_bound port bound (stop w)

unfoldable pub current_info : TestServers → Option TestServerInfo
current_info w = w.runtime

-- A read of the client loop: the bytes that came, no bytes at the end, or an error; with the seconds
-- of the clock and what the writing of the answer comes to.
pub record ClientTurn : Type 0 where
  pub read : Result Bytes
  pub timestamp : ℕ
  pub written : Result (Unit {0})

-- `String::from_utf8_lossy(..).trim()`
unfoldable pub received_text : Bytes → Chars
received_text bytes = trim_chars (chars_of (from_utf8_lossy bytes))

unfoldable pub response : ℕ → Chars → Bytes
response timestamp received =
    utf8 (codes "echo:" ++ (decimal timestamp ++ (b':' ∷ (received ++ (b'\n' ∷ [])))))

-- The answers that the client got whole, and the end of the loop, `none` while it waits.
pub record ClientRun : Type 0 where
  pub answers : List Bytes
  pub ended : Option (Result (Unit {0}))
  pub status : NetworkStatus

abbrev ended_with : Result (Unit {0}) → NetworkStatus → ClientRun
ended_with r s = record { answers = []; ended = some r; status = s }

abbrev with_answer : Bytes → ClientRun → ClientRun
with_answer answer r = record r { answers = answer ∷ r.answers }

abbrev closed_log : String → NetworkStatus → NetworkStatus
closed_log addr = log_status ("Тестовый сервер: клиент " ⧺ addr ⧺ " закрыл соединение.")

abbrev pub received_log : String → Bytes → NetworkStatus → NetworkStatus
received_log addr bytes = log_status (
    "Тестовый сервер: принято "
    ⧺ show_nat (length bytes)
    ⧺ " байт от "
    ⧺ addr
    ⧺ ": "
    ⧺ to_string (received_text bytes))

abbrev after_write : Result (Unit {0}) → Bytes → NetworkStatus → ClientRun → ClientRun
after_write (failed e) answer s rest = ended_with (failed e) s
after_write (done u) answer s rest = with_answer answer rest

abbrev after_read :
    String → ClientTurn → Result Bytes → NetworkStatus → (NetworkStatus → ClientRun) → ClientRun
after_read addr t (failed e) s next = ended_with (failed e) s
after_read addr t (done []) s next = ended_with (done tt) (closed_log addr s)
after_read addr t (done (b ∷ bs)) s next =
    let logged = received_log addr (b ∷ bs) s in
    after_write t.written (response t.timestamp (received_text (b ∷ bs))) logged (next logged)

unfoldable pub echo_loop : String → List ClientTurn → NetworkStatus → ClientRun
echo_loop addr [] s = record { answers = []; ended = none; status = s }
echo_loop addr (t ∷ ts) s = after_read addr t t.read s (echo_loop addr ts)

unfoldable pub handle_client : String → List ClientTurn → NetworkStatus → ClientRun
unfolding echo_loop
handle_client addr turns s =
    echo_loop addr turns (log_status ("Тестовый сервер: клиент " ⧺ addr ⧺ " подключился.") s)

-- What the probe sends, and what it makes of the bytes that it reads into its buffer of 2048.
unfoldable pub probe_request : Chars → Bytes
probe_request payload = utf8 (payload ++ (b'\n' ∷ []))

unfoldable pub probe_answer : Bytes → Chars
unfolding received_text
probe_answer [] = []
probe_answer (b ∷ bs) = received_text (take 2048 (b ∷ bs))

-- What the task of a running server logs: the end of a client's task, or an error of `accept`.
pub data ServerEvent : Type 0 where
  client_ended : String → Result (Unit {0}) → ServerEvent
  accept_failed : String → ServerEvent

unfoldable pub on_server_event : ServerEvent → NetworkStatus → NetworkStatus
on_server_event (client_ended addr (done u)) s = s
on_server_event (client_ended addr (failed e)) s =
    log_status ("Тестовый сервер: ошибка клиента " ⧺ addr ⧺ ": " ⧺ e) s
on_server_event (accept_failed e) s = log_status ("Тестовый сервер: accept() вернул ошибку: " ⧺ e) s
