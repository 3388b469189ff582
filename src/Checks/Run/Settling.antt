-- ===== src/Checks/Run/Settling.antt =====
-- The walk of `Run` (internal/checks/run.go): every result follows from the results of the
-- requirements in the finished run.
use mathlib.Core.Option
use mathlib.Core.List.{append_assoc, map-append, append-nil}
use mathlib.Core.Path.{subst}
use orkano.Prelude.{
  ◌+◌, ◌<◌, ◌≤◌, ◌≡◌, refl, sym, ap, ◌∙◌, Text, text_eq_iff, text_eq_refl, List, [], ◌∷◌, ◌++◌,
  Option, none, some, arith, All,
}
use orkano.Prelude.Counts.{count, count-append}
use orkano.Checks.{Check, CheckResult}
use orkano.Prelude.Maps.{lookup, insert, lookup-insert}
use orkano.Checks.Registry.{}
use orkano.Checks.Plan.Walking.{Ordered, missing}
use orkano.Checks.Plan.Topology.{check_ids}
use orkano.Checks.Run.{sift, outcome_at, run_check, run_checks}
use orkano.Checks.Run.Outcomes.{
  result_of, outcome_of, result_ids, sift-cong, met, result_of-snoc, is_some-result_of, Settled,
  run_check-Settled,
}

module _ {W : Type 0} (ctx_err : W → Option Text) (requires : Text → List Text) where
  -- Between two rounds: `seen` are the ids done, and the map agrees with the list.
  pub record Progress (results : List (Text × CheckResult)) (done : List CheckResult)
      (seen : List Text) (cs : List (Check W)) : Type 0 where
    pub agree : (q : Text) → lookup q results ≡ result_of done q
    pub ids : result_ids done ≡ seen
    pub once : (x : Text) → count x seen + count x (check_ids cs) ≤ 1
    pub ordered : Ordered requires seen (check_ids cs)
    pub given : All (λ (c : Check W). requires c.id ≡ c.requires) cs

  -- One round.
  module _ (results : List (Text × CheckResult)) (done : List CheckResult) (seen : List Text)
      (c : Check W) (cs : List (Check W)) (w : W) (now : Progress results done seen (c ∷ cs)) where
    abbrev res : CheckResult
    res = (run_check ctx_err results c w).0

    settled : Settled (sift (outcome_at ctx_err results) c.requires) c res
    settled = run_check-Settled ctx_err results c w

    absent : result_of done c.id ≡ none
    absent = ground (
      arith,
      is_some-result_of c.id done,
      ap (count c.id) now.ids,
      now.once c.id,
      text_eq_refl c.id,
    )

    next : Progress (insert c.id res results) (done ++ res ∷ []) (seen ++ c.id ∷ []) cs
    next = record {
      agree = λ q. ground (
        arith,
        lookup-insert c.id q res results,
        result_of-snoc q done res,
        now.agree q,
        settled.same_id,
        absent,
        text_eq_iff q c.id,
      );
      ids = rw map-append (rw now.ids (rw settled.same_id));
      once = λ x. omega (arith, now.once x, count-append x seen (c.id ∷ []));
      ordered = now.ordered.1;
      given = now.given.1;
    }

    kept : (q : Text) → 0 < count q seen → result_of (done ++ res ∷ []) q ≡ result_of done q
    kept q h =
        ground (arith, result_of-snoc q done res, is_some-result_of q done, ap (count q) now.ids)

    own : result_of (done ++ res ∷ []) c.id ≡ some res
    own = ground (arith, result_of-snoc c.id done res, absent, settled.same_id, text_eq_refl c.id)

  abbrev pub After : List CheckResult → Check W → Type 0
  After final c =
      (r : CheckResult) × (result_of final c.id ≡ some r)
      × Settled (sift (outcome_of final) c.requires) c r

  pub record Finished (final done : List CheckResult) (seen : List Text) (cs : List (Check W))
      : Type 0 where
    pub ids : result_ids final ≡ seen ++ check_ids cs
    pub extends : (q : Text) → 0 < count q seen → result_of final q ≡ result_of done q
    pub all : All (After final) cs

  pub run_checks-Finished :
      (cs : List (Check W)) (results : List (Text × CheckResult)) (done : List CheckResult)
      (seen : List Text) (w : W)
      → Progress results done seen cs
      → Finished (run_checks ctx_err results done cs w).0 done seen cs
  unfolding run_checks
  run_checks-Finished [] results done seen w now = record {
    ids = now.ids ∙ sym (append-nil seen);
    extends = λ q h. refl;
    all = tt;
  }
  run_checks-Finished (c ∷ cs) results done seen w now =
      let r = res results done seen c cs w now in
      let w' = (run_check ctx_err results c w).1 in
      let ih =
        run_checks-Finished cs (insert c.id r results) (done ++ r ∷ []) (seen ++ c.id ∷ []) w'
          (next results done seen c cs w now) in
      let final = (run_checks ctx_err (insert c.id r results) (done ++ r ∷ []) cs w').0 in
      let earlier : (q : Text) → 0 < count q c.requires → result_of final q ≡ result_of done q =
        λ q h.
          let there =
            met q c.requires seen h (subst (λ qs. missing qs seen ≡ 0) now.given.0 now.ordered.0) in
          ih.extends q (omega (arith, there, count-append q seen (c.id ∷ [])))
          ∙ kept results done seen c cs w now q there in
      let sifts : sift (outcome_at ctx_err results) c.requires
          ≡ sift (outcome_of final) c.requires =
        sift-cong _ _ c.requires λ q h.
          ap (Option.map (λ (x : CheckResult). x.outcome)) (now.agree q ∙ sym (earlier q h)) in
      record {
        ids = ih.ids ∙ append_assoc seen (c.id ∷ []) (check_ids cs);
        extends = λ q h.
            ih.extends q (omega (arith, h, count-append q seen (c.id ∷ [])))
            ∙ kept results done seen c cs w now q h;
        all = (
          (
            r,
            ih.extends c.id (ground (arith, count-append c.id seen (c.id ∷ []), text_eq_refl c.id))
                ∙ own results done seen c cs w now,
            subst (λ s. Settled s c r) sifts (settled results done seen c cs w now),
          ),
          ih.all,
        );
      }
