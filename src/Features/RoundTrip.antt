-- ===== src/Features/RoundTrip.antt =====
-- The environment form of internal/features/features.go: `ParseCSV` reads back what `CSV` writes.
use mathlib.Core.List.{append_assoc, append-nil}
use orkano.Prelude.{
  ◌+◌, ◌≤◌, ◌<◌, ◌≡◌, refl, ap, ◌∙◌, sym, Text, lit, text_eq, text_eq_iff, text_eq_refl, is_empty,
  join, List, [], ◌∷◌, ◌++◌, true, false, ok, All, all_of, arith, inl, inr, Bool-cases,
}
use orkano.Prelude.Counts.{count, count-append}
use orkano.Prelude.Splitting.{Lacks, split_on-join}
use orkano.Prelude.Trimming.{trim_space, is_graphic, trim_space_graphic, all_of-append}
use orkano.Prelude.Sorting.{sort_texts, count-sort_texts, All_of_count}
use orkano.Features.{
  Set, no_features, has, is_known, enable, parse, parse_from, parse_csv, enabled, ids, csv,
  source_git, source_zip, build_nixpacks,
}
use orkano.Features.Gate.{parse-IsExact}

-- A known gate is a word without commas or white space.
record IsWord (z : Text) : Type 0 where
  graphic : all_of is_graphic z ≡ true
  lacks : Lacks b',' z
  nonempty : is_empty z ≡ false

known-IsWord : (z : Text) → is_known z ≡ true → IsWord z
unfolding is_known
known-IsWord z h = elim (Bool-cases (text_eq z source_git)) [
  | inl e ↦
      rw ((text_eq_iff z source_git).0 e) (record { graphic = refl; lacks = refl; nonempty = refl })
  | inr n ↦ elim (Bool-cases (text_eq z source_zip)) [
    | inl e ↦
        rw ((text_eq_iff z source_zip).0 e)
          (record { graphic = refl; lacks = refl; nonempty = refl })
    | inr m ↦ elim (Bool-cases (text_eq z build_nixpacks)) [
      | inl e ↦
          rw ((text_eq_iff z build_nixpacks).0 e)
            (record { graphic = refl; lacks = refl; nonempty = refl })
      | inr k ↦ let no : ⊥ = ground arith in elim no [ ]
    ]
  ]
]

parse_from_step :
    (v : Text) (l : List Text) (s : Set)
    → trim_space v ≡ v
    → is_empty v ≡ false
    → is_known v ≡ true
    → parse_from (v ∷ l) s ≡ parse_from l (enable v s)
unfolding parse_from
parse_from_step v l s t n k = rw (t, n, k) refl

enable_new :
    (z : Text) (s : Set)
    → has z s.enabled ≡ false
    → enable z s ≡ record { enabled = s.enabled ++ z ∷ [] }
unfolding enable
enable_new z s n = rw n refl

-- A list of known gates without repetition is read as it stands.
parse_from_ids :
    (l : List Text) (s : Set)
    → All (λ z. is_known z ≡ true) l
    → ((z : Text) → count z s.enabled + count z l ≤ 1)
    → parse_from l s ≡ ok (record { enabled = s.enabled ++ l })
unfolding parse_from
parse_from_ids [] s k once = ap (λ l. ok (record { enabled = l })) (sym (append-nil s.enabled))
parse_from_ids (z ∷ l) s (k, ks) once =
    let word = known-IsWord z k in
    let new : has z s.enabled ≡ false = ground (arith, once z, text_eq_refl z) in
    let next : Set = record { enabled = s.enabled ++ z ∷ [] } in
    let ih =
      parse_from_ids l next ks (λ y. omega (arith, once y, count-append y s.enabled (z ∷ []))) in
    let whole : (s.enabled ++ z ∷ []) ++ l ≡ s.enabled ++ z ∷ l =
      append_assoc s.enabled (z ∷ []) l in
    parse_from_step z l s (trim_space_graphic z word.graphic) word.nonempty k
    ∙ (ap (parse_from l) (enable_new z s new) ∙ (ih ∙ ap (λ e. ok (record { enabled = e })) whole))

all_of-join :
    (l : List Text) → All (λ z. is_known z ≡ true) l → all_of is_graphic (join (lit ",") l) ≡ true
unfolding join
all_of-join [] h = refl
all_of-join (z ∷ []) (k, ks) = (known-IsWord z k).graphic
all_of-join (z ∷ y ∷ l) (k, ks) =
    let rest = all_of-join (y ∷ l) ks in
    let word = (known-IsWord z k).graphic in
    ground (arith, all_of-append is_graphic z (b',' ∷ join (lit ",") (y ∷ l)))

join_nonempty :
    (z : Text) (l : List Text) → is_known z ≡ true → is_empty (join (lit ",") (z ∷ l)) ≡ false
unfolding join
join_nonempty z [] k = (known-IsWord z k).nonempty
join_nonempty [] (y ∷ l) k =
    let no : ⊥ = ground (arith, (known-IsWord [] k).nonempty) in elim no [ ]
join_nonempty (c ∷ z) (y ∷ l) k = refl

all_lack : (l : List Text) → All (λ z. is_known z ≡ true) l → All (Lacks b',') l
all_lack [] h = tt
all_lack (z ∷ l) (k, ks) = ((known-IsWord z k).lacks, all_lack l ks)

parse_csv-join :
    (l : List Text) → All (λ z. is_known z ≡ true) l → parse_csv (join (lit ",") l) ≡ parse l
unfolding parse_csv trim_space
parse_csv-join [] h = refl
parse_csv-join (z ∷ l) h =
    rw (trim_space_graphic (join (lit ",") (z ∷ l)) (all_of-join (z ∷ l) h))
      (rw (join_nonempty z l h.0) (ap parse (split_on-join b',' z l (all_lack (z ∷ l) h))))

-- What `CSV` writes of a set that `Parse` made, `ParseCSV` reads as a set with the same ids, so the
-- same text and the same gates again.
pub parse_csv-csv :
    (values : List Text) {s : Set}
    → parse values ≡ ok s
    → parse_csv (csv s) ≡ ok (record { enabled = ids s })
unfolding csv parse ids enabled
parse_csv-csv values {s} e =
    let x = parse-IsExact values e in
    let known : All (λ z. is_known z ≡ true) (sort_texts s.enabled) =
      All_of_count _ _ (λ z k. x.known z (is_enabled z k)) in
    parse_csv-join (sort_texts s.enabled) known
    ∙ parse_from_ids (sort_texts s.enabled) no_features known
        (λ z. omega (arith, count-sort_texts z s.enabled, x.once z))
  where
    is_enabled : (z : Text) → 0 < count z (sort_texts s.enabled) → enabled s z ≡ true
    is_enabled z k = ground (arith, count-sort_texts z s.enabled)
