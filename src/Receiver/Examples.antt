-- ===== src/Receiver/Examples.antt =====
-- The receiver of receiver/internal/webhook/webhook.go on one push, and the theorems on it.
use orkano.Prelude.{
  ◌≤◌, ◌≡◌, refl, Text, lit, text_eq, [], ◌∷◌, ◌++◌, none, some, true, false, length, ok, arith,
  inr, ◌⊎◌,
}
use orkano.Prelude.Trimming.{trim_space, to_lower}
use orkano.Prelude.Splitting.{split_on}
use orkano.Prelude.Sorting.{sort_texts, less}
use orkano.Allowlist.{matches, name_byte, normalize, parse}
use orkano.Receiver.{
  Host, Handler, Request, World, new_handler, repositories, allowlist_size, file_allowlist,
  static_allowlist, webhook, respond,
}
use orkano.Receiver.Queue.{Delivery}
use orkano.Receiver.Gates.{Accepted, Authentic, webhook_gates}
use orkano.Receiver.Redelivery.{redelivery, unauthentic_blind, fails_closed}

-- A digest that is the key, and a body that is its repository.
abbrev host : Host
host = record {
  hmac_hex = λ secret body. secret ++ lit "0f";
  decode = λ body. some body;
  unicode_lower = λ s. s;
  char_length = length;
}

abbrev handler : Handler
unfolding new_handler
handler = new_handler host (record {
  secret = lit "key";
  allowlist = [];
  allowlist_source = some (file_allowlist (lit "/etc/allow"));
  max_body = none;
})

abbrev closed_handler : Handler
unfolding new_handler
closed_handler = new_handler host (record {
  secret = lit "key";
  allowlist = [];
  allowlist_source = some (static_allowlist (ok []));
  max_body = some 100;
})

abbrev world : World
world = record { read_file = λ path. some (lit "acme/web\n"); db_fails = false }

abbrev push : Request
push = record {
  method = lit "POST";
  body = record { bytes = lit "Acme/Web"; broken = false };
  signature = lit "sha256=key0f";
  event = lit "push";
  delivery = lit "d1";
}

abbrev forged : Request
forged = record push { signature = lit "sha256=0f" }

abbrev other_forged : Request
other_forged = record forged { event = lit "ping" }

abbrev row : Delivery
row = record { delivery_id = lit "d1"; repo = lit "Acme/Web"; event_type = lit "push" }

webhook_push : webhook host world handler push [] ≡ (respond 202 [] (lit "accepted"), row ∷ [])
unfolding webhook matches name_byte trim_space to_lower sort_texts less text_eq new_handler parse
    split_on
webhook_push = refl

default_size : handler.max_body ≡ 26_214_400
unfolding handler
default_size = refl

size : allowlist_size host world handler ≡ ok 1
unfolding allowlist_size matches name_byte trim_space to_lower sort_texts less text_eq parse handler
    split_on
size = refl

accepted_push : (webhook host world handler push []).0.status ≡ 202
unfolding respond
accepted_push = rw webhook_push refl

webhook_gates_example :
    Accepted host world handler push [] (webhook host world handler push [])
    ⊎ (¬ ((webhook host world handler push []).0.status ≡ 202)
        × ((webhook host world handler push []).1 ≡ []))
webhook_gates_example = webhook_gates host world handler push []

redelivery_example :
    webhook host world handler push ((webhook host world handler push []).1 ++ row ∷ [])
    ≡ (respond 202 [] (lit "accepted"), (webhook host world handler push []).1 ++ row ∷ [])
redelivery_example = redelivery host world handler push [] (row ∷ []) accepted_push

forged_unauthentic : Authentic host handler forged → ⊥
unfolding handler
forged_unauthentic a = let e : lit "sha256=0f" ≡ lit "sha256=key0f" = a.signed in ground (arith, e)

unauthentic_blind_example :
    ((webhook host world handler forged []).1 ≡ [])
    × (webhook host (record world { db_fails = true }) handler other_forged (row ∷ [])
        ≡ ((webhook host world handler forged []).0, row ∷ []))
unauthentic_blind_example =
    unauthentic_blind host handler world (record world { db_fails = true }) forged other_forged []
      (row ∷ []) refl refl refl forged_unauthentic

closed_policy : repositories host world closed_handler ≡ ok []
unfolding repositories normalize sort_texts closed_handler
closed_policy = refl

fails_closed_example :
    ¬ ((webhook host world closed_handler push []).0.status ≡ 202)
    × ((webhook host world closed_handler push []).1 ≡ [])
fails_closed_example = fails_closed host world closed_handler push [] (inr closed_policy)

length_short : (s : Text) → host.char_length s ≤ length s
length_short s = omega arith
