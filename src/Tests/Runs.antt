-- ===== src/Tests/Runs.antt =====
-- The theorems on runs, and on the files, the alerts and the start of the service.
use remote_unlock.Base.{
  ℕ, ◌≡◌, refl, sym, Bool, false, none, [], ◌∷◌, codes, Text, Text-discrete, text_eq, length, All,
  arith, inl, inr,
}
use remote_unlock.Base.Dict.{lookup}
use remote_unlock.Json.{str, obj, Fields, field, end, find}
use remote_unlock.Outcome.{returns, raises, os_error, value_error}
use remote_unlock.Backoff
use remote_unlock.Backoff.Reference.{fails, asks, replies_with, fail_keeping}
use remote_unlock.Backoff.Pruning.{replies-fail_keeping}
use remote_unlock.Broker
use remote_unlock.Broker.{woken, timed_out, issues, answers, consume}
use remote_unlock.Broker.Returns.{consume_answered}
use remote_unlock.Files.{Disk, write_private, write_temp, check_private, others_may}
use remote_unlock.Files.Atomic.{Ended, write_private-Ended}
use remote_unlock.Config.{reload}
use remote_unlock.Config.Data.{defaults, Codec, DistinctKeys, save, load, ReadsAs, load-save}
use remote_unlock.Notify.{Net, Message, send, send_sync}
use remote_unlock.Notify.Channels.{IsSecure, send-IsSecure, send_sync_whatever_delivery}
use remote_unlock.Audit.{open_log, verify_file}
use remote_unlock.Service.Start
use remote_unlock.Service.Start.{
  Host, start, start_checks, check_config, open_all, build_ssl_context,
}
use remote_unlock.Service.Start.Guarded.{Guarded, start-Guarded}
use remote_unlock.Tests.Data.{failing, working, config, env}

replies-fail_keeping_example :
    replies_with Backoff.fail
      (fails 1 (codes "a") ∷ fails 2 (codes "a") ∷ asks 3 (codes "a") ∷ [])
      (Backoff.init 2 30 3600 3600)
    ≡ replies_with fail_keeping
        (fails 1 (codes "a") ∷ fails 2 (codes "a") ∷ asks 3 (codes "a") ∷ [])
        (Backoff.init 2 30 3600 3600)
replies-fail_keeping_example =
    replies-fail_keeping 2 30 3600 3600
      (fails 1 (codes "a") ∷ fails 2 (codes "a") ∷ asks 3 (codes "a") ∷ [])
      (omega arith, (omega arith, (omega arith, tt)))

consume_answered_example :
    (ok : Bool) × ((consume 15 (woken [] 6 ∷ timed_out (issues 7 ∷ []) ∷ []) 1 (Broker.init 20)).1
      ≡ answers ok)
consume_answered_example =
    consume_answered 15 (woken [] 6 ∷ timed_out (issues 7 ∷ []) ∷ []) 1 (Broker.init 20)
      (inr (inl tt))

abbrev disk : Disk
disk =
    (codes "config.json", record { mode = 33152; data_ = 123 ∷ [] })
    ∷ (codes "signing.pem", record { mode = 33152; data_ = 1 ∷ [] })
    ∷ (codes "server.key", record { mode = 33152; data_ = 2 ∷ [] })
    ∷ []

is_new : (tmp : Text) → working.mkstemp ≡ returns tmp → lookup Text-discrete tmp disk ≡ none
unfolding lookup Text-discrete
is_new tmp h = let same : codes ".tmp-1" ≡ tmp = ground arith in rw (sym same) refl

write_private-Ended_example :
    Ended failing
      (codes "config.json")
      (5 ∷ [])
      disk
      (write_private failing (codes "config.json") (5 ∷ []) disk)
write_private-Ended_example = write_private-Ended failing (codes "config.json") (5 ∷ []) disk is_new

abbrev codec : Codec
codec = record {
  loads = λ b. returns (obj defaults);
  dumps = λ fs. 7 ∷ [];
  update_pairs = λ items fs. raises value_error;
}

defaults-DistinctKeys : DistinctKeys defaults
unfolding defaults find Text-discrete
defaults-DistinctKeys = (
  refl,
  (
    refl,
    (
      refl,
      (
        refl,
        (refl, (refl, (refl, (refl, (refl, (refl, (refl, (refl, (refl, (refl, (refl, tt))))))))))),
      ),
    ),
  ),
)

saves : (save codec working (codes "config.json") defaults disk).1 ≡ returns tt
unfolding save write_private write_temp lookup Text-discrete
saves = refl

load-save_example :
    ReadsAs defaults
      (load codec (codes "config.json") (save codec working (codes "config.json") defaults disk).0)
load-save_example =
    load-save codec working (codes "config.json") defaults disk refl defaults-DistinctKeys
      (λ k h. h) is_new saves

abbrev net : Net
net = record {
  encode = λ t. returns t;
  dumps = λ j. 1 ∷ [];
  str_of = λ j. codes "value";
  urlopen = λ p. raises os_error;
}

abbrev alerts : Fields
alerts =
    field (codes "ntfy") (obj (field (codes "topic") (str (codes "t")) end))
      (field (codes "webhook_url") (str (codes "http://example.org")) end)

abbrev alert : Message
alert = record {
  title = codes "LOCKOUT";
  message = codes "m";
  priority = codes "high";
  tags = codes "key" ∷ [];
}

send-IsSecure_example : All IsSecure (send net alerts alert)
send-IsSecure_example = send-IsSecure net alerts alert

send_sync_whatever_delivery_example :
    send_sync (record net { urlopen = λ p. returns tt }) alerts alert ≡ send_sync net alerts alert
send_sync_whatever_delivery_example = send_sync_whatever_delivery net (λ p. returns tt) alerts alert

abbrev host : Host ℕ
host = record {
  uid = 1000;
  disk = disk;
  resolve = λ rel. rel;
  config_file = λ path. record { mtime = 1; content = returns config.settings };
  load_private_key = λ pem passphrase. returns 7;
  load_cert_chain = λ cert key passphrase. returns tt;
  load_verify_locations = λ ca. returns tt;
  default_log = codes "audit.log";
  log_lines = λ path. none;
  umask = 18;
  mkdir = returns tt;
  unlink = returns tt;
  start_unix_server = returns tt;
  chmod = returns tt;
  serve = raises os_error;
}

start-Guarded_example :
    Guarded env host
      (codes "config.json")
      false
      (start env 5 host (codes "config.json") (codes "long enough") false).0
start-Guarded_example = start-Guarded env 5 host (codes "config.json") (codes "long enough") false

-- The start gets as far as the port.
starts : length (start env 5 host (codes "config.json") (codes "long enough") false).0 ≡ 6
unfolding start start_checks check_config Start.load open_all check_private reload build_ssl_context
    open_log verify_file lookup others_may text_eq Text-discrete
starts = refl
