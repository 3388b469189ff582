-- ===== src/Operator/Dispatcher/Examples.antt =====
-- The dispatcher of operator/internal/dispatcher/dispatcher.go on one push, and the theorems on it.
use orkano.Prelude.{
  ℕ, ◌≤◌, ◌≡◌, refl, Text, lit, text_eq, drop, List, [], ◌∷◌, ◌++◌, none, some, true, false, All,
  ◌⊎◌, ◌-◌, length, select,
}
use orkano.Prelude.Trimming.{trim_space, to_lower}
use orkano.Api.{App, Build, BuildPhase, running, succeeded}
use orkano.Features.{no_features, validate_app}
use orkano.Operator.Dispatcher.{
  Delivery, Cluster, commit, Answers, validate_delivery, manual_delivery_id, manual_app_name,
  resolve_commit, build_from_app,
}
use orkano.Operator.Dispatcher.Loop.{process_one, handle, tick}
use orkano.Operator.Dispatcher.Builds.{Served, IsSnapshot}
use orkano.Operator.Dispatcher.Handling.{apps_of, run, handle_adds, handle_serves, Alike}
use orkano.Operator.Dispatcher.Queueing.{underway, handle_again, process_one_keeps, tick_drops}

abbrev sha : Text → Text
sha s = lit "0123456789abcdef"

abbrev plain : Text → Text
plain s = s

abbrev web : App
web = record {
  name = lit "web";
  namespace = lit "orkano-apps";
  spec = record {
    source = record {
      github = some (record { repo = lit "Acme/web"; ref = lit "main" });
      git = none;
      upload = none;
      sub_path = [];
    };
    build = record {
      strategy = lit "Dockerfile";
      dockerfile_path = none;
      static_dir = none;
      nixpacks_config_path = none;
    };
  };
}

abbrev push : Delivery
push = record {
  id = 1;
  delivery_id = lit "d1";
  repo = lit "acme/Web";
  event_type = lit "push";
  app_name = [];
}

abbrev answers : Answers
answers = record {
  claim_fails = false;
  list_fails = false;
  create_fails = λ b. false;
  ack_fails = false;
  github = some (λ repo ref. commit (lit "c0ffee"));
  git = none;
}

abbrev cluster : Cluster
cluster = record { apps = web ∷ []; builds = [] }

manual_id : manual_delivery_id (lit "manual-0123456789abcdef0123456789abcdef") ≡ true
unfolding manual_delivery_id
manual_id = refl

app_name : manual_app_name (lit "my-app.v2") ≡ true
unfolding manual_app_name
app_name = refl

acked : (run sha plain no_features answers push cluster).ack ≡ true
unfolding handle validate_delivery text_eq trim_space to_lower validate_app
acked = refl

handle_adds_example :
    (added : List Build) × ((run sha plain no_features answers push cluster).cluster.builds
      ≡ [] ++ added)
    × ((run sha plain no_features answers push cluster).cluster.apps ≡ web ∷ [])
    × All
        (IsSnapshot sha plain no_features answers push (apps_of sha plain no_features push cluster))
        added
handle_adds_example = handle_adds sha plain no_features answers push cluster

well_formed : validate_delivery push ≡ true
unfolding validate_delivery text_eq
well_formed = refl

handle_serves_example :
    All
      (Served sha plain no_features answers push
        (run sha plain no_features answers push cluster).cluster.builds)
      (apps_of sha plain no_features push cluster)
handle_serves_example = handle_serves sha plain no_features answers push cluster well_formed acked

-- The same answers, but for the removal of the row.
abbrev later : Answers
later = record answers { claim_fails = false; ack_fails = true }

answers-Alike : Alike sha plain no_features answers later
unfolding resolve_commit
answers-Alike = record { lists = refl; creates = λ b. refl; resolves = λ app. refl }

handle_again_example :
    let c = (run sha plain no_features answers push cluster).cluster in
    ((run sha plain no_features later push c).ack ≡ true)
    × ((run sha plain no_features later push c).cluster ≡ c)
handle_again_example =
    handle_again sha plain no_features answers later push cluster acked answers-Alike

process_one_keeps_example :
    let p = process_one sha plain no_features answers (push ∷ []) cluster in
    ((p.queue ≡ push ∷ []) × ¬ (p.outcome ≡ some true))
    ⊎ ((d : Delivery) × (push ∷ [] ≡ d ∷ p.queue)
        × ((validate_delivery d ≡ false)
            ⊎ All
                (Served sha plain no_features answers d p.cluster.builds)
                (apps_of sha plain no_features d cluster)))
process_one_keeps_example = process_one_keeps sha plain no_features answers (push ∷ []) cluster

-- A build that runs, and one that has ended.
abbrev at : BuildPhase → Build
at phase =
    let b = build_from_app web (lit "c0ffee") (lit "web-1") in
    record b { status = record b.status { phase = phase } }

abbrev busy : Cluster
busy = record cluster { builds = at running ∷ at succeeded ∷ [] }

one_place : 2 - length (select underway busy.builds) ≡ 1
unfolding build_from_app
one_place = refl

tick_drops_example :
    let o = tick sha plain no_features 2 true (answers ∷ answers ∷ []) (push ∷ push ∷ []) busy in
    (true ≡ false → o ≡ (push ∷ push ∷ [], busy))
    × ((k : ℕ) × (k ≤ 2 - length (select underway busy.builds)) × (o.0 ≡ drop k (push ∷ push ∷ [])))
tick_drops_example =
    tick_drops sha plain no_features 2 true (answers ∷ answers ∷ []) (push ∷ push ∷ []) busy
