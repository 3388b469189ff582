-- ===== src/Receiver.antt =====
-- receiver/internal/webhook/webhook.go: the internet-facing receiver of GitHub webhooks, with the
-- queue it inserts into (internal/db/webhook_deliveries.sql.go, whose statement runs against the
-- table of internal/db/migrations/00001_webhook_deliveries.sql). An early return of the handler is
-- an `err` with the response. Parameters: HMAC-SHA256 in hex, the JSON decoder (none is an error),
-- the Unicode part of `strings.ToLower`, and Postgres's `char_length`. Logging is left out.
pub mod Queue
pub mod Gates
pub mod Redelivery
mod Examples
use orkano.Prelude.{
  ℕ, ◌+◌, Text, lit, text_eq, is_empty, List, [], ◌∷◌, ◌++◌, Option, none, some, Bool, true, false,
  not, ◌&&◌, ◌||◌, ltb, leb, ◌==◌, if◌then◌else◌, length, any_of, Result, ok, err, ◌>>=◌, ◌>>◌,
  guard,
}
use orkano.Prelude.Trimming.{to_lower}
use orkano.Allowlist.{AllowlistError, normalize, parse}
use orkano.Receiver.Queue.{Delivery, enqueue_delivery}

pub record Response : Type 0 where
  pub status : ℕ
  pub headers : List (Text × Text)
  pub body : Text

-- `respond`, with the headers set before it.
unfoldable pub respond : ℕ → List (Text × Text) → Text → Response
respond status headers msg = record {
  status = status;
  headers = headers ++ (lit "Content-Type", lit "text/plain; charset=utf-8") ∷ [];
  body = msg ++ lit "\n";
}

unfoldable pub reject : ℕ → Text → Response
unfolding respond
reject status msg = respond status [] msg

unfoldable pub ack : Text → Response
unfolding respond
ack msg = respond 200 [] msg

-- A request body as it arrives: its bytes, and whether the connection breaks after them.
pub record Stream : Type 0 where
  pub bytes : Text
  pub broken : Bool

-- What the handler reads of a request; an absent header is empty, as `Header.Get` has it.
pub record Request : Type 0 where
  pub method : Text
  pub body : Stream
  pub signature : Text
  pub event : Text
  pub delivery : Text

pub data SourceError : Type 0 where
  unreadable : Text → SourceError
  malformed : Text → AllowlistError → SourceError
  rejected : AllowlistError → SourceError

-- The two implementations of `AllowlistSource`: a file that is read at each use, and a fixed list.
pub data AllowlistSource : Type 0 where
  file_allowlist : Text → AllowlistSource
  static_allowlist : Result AllowlistError (List Text) → AllowlistSource

pub record Config : Type 0 where
  pub secret : Text
  pub allowlist : List Text
  pub allowlist_source : Option AllowlistSource
  pub max_body : Option ℕ

pub record Handler : Type 0 where
  pub secret : Text
  pub allowlist_source : AllowlistSource
  pub max_body : ℕ

-- What a request finds outside the process: the files, and whether the database fails.
pub record World : Type 0 where
  pub read_file : Text → Option Text
  pub db_fails : Bool

abbrev pub default_max_body_bytes : ℕ
default_max_body_bytes = 26_214_400

abbrev pub max_delivery_id_len : ℕ
max_delivery_id_len = 72

abbrev pub max_repo_len : ℕ
max_repo_len = 200

-- `http.MaxBytesReader` under `io.ReadAll`.
unfoldable pub read_body : ℕ → Stream → Result Response Text
unfolding reject
read_body max s =
    if ltb max (length s.bytes)
    then err (reject 413 (lit "body too large"))
    else if s.broken
    then err (reject 400 (lit "cannot read body"))
    else ok s.bytes

-- What the receiver uses of other code.
pub record Host : Type 0 where
  pub hmac_hex : Text → Text → Text
  pub decode : Text → Option Text
  pub unicode_lower : Text → Text
  pub char_length : Text → ℕ

module _ (host : Host) where
  abbrev pub parsed : Text → Result AllowlistError (List Text) → Result SourceError (List Text)
  parsed path (ok repositories) = ok repositories
  parsed path (err e) = err (malformed path e)

  abbrev pub checked : Result AllowlistError (List Text) → Result SourceError (List Text)
  checked (ok repositories) = ok repositories
  checked (err e) = err (rejected e)

  -- `Repositories` of a source.
  unfoldable pub source_repositories : World → AllowlistSource → Result SourceError (List Text)
  source_repositories w (file_allowlist path) = elim (w.read_file path) [
    | none ↦ err (unreadable path)
    | some raw ↦ parsed path (parse host.unicode_lower raw)
  ]
  source_repositories w (static_allowlist repositories) = checked repositories

  -- A size that is not positive is `none`.
  unfoldable pub new_handler : Config → Handler
  new_handler c = record {
    secret = c.secret;
    allowlist_source = elim c.allowlist_source [
      | none ↦ static_allowlist (normalize host.unicode_lower c.allowlist)
      | some source ↦ source
    ];
    max_body = elim c.max_body [ none ↦ default_max_body_bytes | some n ↦ n ];
  }

  unfoldable pub repositories : World → Handler → Result SourceError (List Text)
  unfolding source_repositories
  repositories w h =
      source_repositories w h.allowlist_source >>= λ rs. checked (normalize host.unicode_lower rs)

  unfoldable pub allowlist_size : World → Handler → Result SourceError ℕ
  unfolding repositories
  allowlist_size w h = repositories w h >>= λ rs. ok (length rs)

  unfoldable pub allowed : World → Handler → Text → Result SourceError Bool
  unfolding repositories
  allowed w h repo = do
    rs ← repositories w h
    ok (any_of (λ r. text_eq r (to_lower host.unicode_lower repo)) rs)

  unfoldable pub valid_signature : Handler → Text → Text → Bool
  valid_signature h header body =
      not (is_empty header) && text_eq (lit "sha256=" ++ host.hmac_hex h.secret body) header

  -- The switch on the event.
  unfoldable pub push_only : Text → Result Response (Unit {0})
  unfolding ack
  push_only event =
      if text_eq event (lit "ping")
      then err (ack (lit "pong"))
      else if text_eq event (lit "push")
      then ok tt
      else err (ack (lit "ignored"))

  abbrev pub decoded : Option Text → Result Response Text
  unfolding reject
  decoded none = err (reject 400 (lit "invalid json"))
  decoded (some repo) = ok repo

  abbrev pub permitted : Result SourceError Bool → Result Response (Unit {0})
  unfolding reject
  permitted (err e) = err (reject 503 (lit "repository policy unavailable"))
  permitted (ok b) = guard b (reject 403 (lit "repository not allowed"))

  -- `Webhook` up to its signature check: the authentic body.
  unfoldable pub authenticate : Handler → Request → Result Response Text
  unfolding read_body valid_signature respond reject
  authenticate h r = do
    guard (text_eq r.method (lit "POST"))
        (respond 405 ((lit "Allow", lit "POST") ∷ []) (lit "method not allowed"))
    body ← read_body h.max_body r.body
    guard (valid_signature h r.signature body) (reject 401 (lit "signature verification failed"))
    ok body

  -- The rest of `Webhook` before it inserts: the row.
  unfoldable pub pointer : World → Handler → Request → Text → Result Response Delivery
  unfolding push_only allowed reject
  pointer w h r body = do
    push_only r.event
    guard (not (is_empty r.delivery)) (reject 400 (lit "missing delivery id"))
    guard (leb (length r.delivery) max_delivery_id_len) (reject 400 (lit "field too long"))
    repo ← decoded (host.decode body)
    guard (not (is_empty repo)) (reject 400 (lit "missing repository"))
    guard (leb (length repo) max_repo_len) (reject 400 (lit "field too long"))
    permitted (allowed w h repo)
    ok (record { delivery_id = r.delivery; repo = repo; event_type = r.event })

  -- The last lines of `Webhook`: 0 rows is a duplicate, and answered alike.
  unfoldable pub ring : World → Delivery → List Delivery → Response × List Delivery
  unfolding enqueue_delivery respond reject
  ring w d queue = elim (enqueue_delivery host.char_length w.db_fails d queue) [
    | err e ↦ (reject 500 (lit "enqueue failed"), queue)
    | ok (rows, queue') ↦ (respond 202 [] (lit "accepted"), queue')
  ]

  unfoldable pub webhook : World → Handler → Request → List Delivery → Response × List Delivery
  unfolding authenticate pointer ring
  webhook w h r queue = elim (authenticate h r >>= pointer w h r) [
    | err response ↦ (response, queue)
    | ok d ↦ ring w d queue
  ]
