-- ===== src/Tune/Accept.antt =====
-- When the promotion gate accepts a challenger.
use slancha_mesh.Common.{
  In-keep, ℕ, ◌≤◌, String, ◌≡◌, refl, ap, sym, ◌∙◌, ◌↔◌, ◌⊎◌, inl, inr, Bool, true, false, Option,
  List, [], ◌∷◌, ◌++◌, arith, ltb, ltb→ge, str_lt, ◌==◌, ◌&&◌, not, keep, is_empty, Bool-cases,
  eq_iff, All, All-In, In,
}
use slancha_mesh.Common.Dict.{Assoc, lookup, has}
use slancha_mesh.Common.Double.{Double, sub_double, neg_double, ltb_double}
use slancha_mesh.Common.Sort.{All-sort_by, In-sort_by}
use slancha_mesh.Tune.Gate.{
  GateThresholds, EvalRow, Reason, mean_of, domains_of, judge_of, count_of, is_stub, keys,
  shared_domains, delta_of, reason_if, regressions, decide,
}

-- What a challenger must satisfy.
pub record Passes (champion challenger : EvalRow) (t : GateThresholds)
    (champion_is_stub challenger_is_stub : Option Bool) : Type 0 where
  pub champion_real : is_stub champion_is_stub champion ≡ false
  pub challenger_real : is_stub challenger_is_stub challenger ≡ false
  pub same_judge : (t.require_judge_match ≡ false) ⊎ (judge_of champion ≡ judge_of challenger)
  pub champion_sampled : t.min_n_eval ≤ count_of champion
  pub challenger_sampled : t.min_n_eval ≤ count_of challenger
  pub lifted :
      ltb_double (sub_double (mean_of challenger) (mean_of champion)) t.mean_score_delta ≡ false
  pub no_cliff :
      (d : String)
      → has d (domains_of champion) ≡ true
      → has d (domains_of challenger) ≡ true
      → ltb_double
          (delta_of (domains_of champion) (domains_of challenger) d)
          (neg_double t.per_domain_max_regression)
        ≡ false

and_split : (a b : Bool) → (a && b) ≡ true → (a ≡ true) × (b ≡ true)
and_split true b h = (refl, h)
and_split false b h = cc

and_join : {a b : Bool} → a ≡ true → b ≡ true → (a && b) ≡ true
and_join h k = rw (h, k) refl

not-true : {a : Bool} → not a ≡ true → a ≡ false
not-true {a = true} h = cc
not-true {a = false} h = refl

not_lt : {a b : ℕ} → b ≤ a → ltb a b ≡ false
not_lt h = ground (arith, h)

judges :
    (required : Bool) (a b : String)
    → (required && not (a == b)) ≡ false
    → (required ≡ false) ⊎ (a ≡ b)
judges false a b h = inl refl
judges true a b h = elim (Bool-cases (a == b)) [
  | inl e ↦ inr ((eq_iff a b).0 e)
  | inr e ↦ absurd (ground (arith, e, h))
]

no_mismatch :
    (required : Bool) (a b : String)
    → (required ≡ false) ⊎ (a ≡ b)
    → (required && not (a == b)) ≡ false
no_mismatch required a b (inl e) = rw e refl
no_mismatch true a b (inr e) = rw ((eq_iff a b).1 e) refl
no_mismatch false a b (inr e) = refl

is_empty-reason_if :
    (test : Bool) (reason : Reason) (rest : List Reason)
    → is_empty (reason_if test reason ++ rest) ≡ (not test && is_empty rest)
is_empty-reason_if true reason rest = refl
is_empty-reason_if false reason rest = refl

has-In : (d : String) (m : Assoc Double) → has d m ≡ true → In d (keys m)
unfolding lookup
has-In d [] h = cc
has-In d ((k, v) ∷ m) h = elim (Bool-cases (k == d)) [
  | inl e ↦ inl ((eq_iff k d).0 e)
  | inr e ↦ inr (has-In d m (rw e at h))
]

In-has : (d : String) (m : Assoc Double) → In d (keys m) → has d m ≡ true
unfolding lookup
In-has d [] h = absurd (ground (arith, h))
In-has d ((k, v) ∷ m) (inl e) = rw ((eq_iff k d).1 e) refl
In-has d ((k, v) ∷ m) (inr h) = elim (Bool-cases (k == d)) [
  | inl e ↦ rw e refl
  | inr e ↦ rw e (In-has d m h)
]

All-keep_test :
    (P : String → Type 0) (p : String → Bool) (ds : List String)
    → ((d : String) → In d ds → p d ≡ true → P d)
    → All P (keep p ds)
unfolding keep
All-keep_test P p [] f = tt
All-keep_test P p (d ∷ ds) f = elim (Bool-cases (p d)) [
  | inl e ↦ rw e (f d (inl refl) e, All-keep_test P p ds (λ x i. f x (inr i)))
  | inr e ↦ rw e (All-keep_test P p ds (λ x i. f x (inr i)))
]

module _ (t : GateThresholds) (before after : Assoc Double) where
  abbrev NoCliff : String → Type 0
  NoCliff d = ltb_double (delta_of before after d) (neg_double t.per_domain_max_regression) ≡ false

  regressions-none :
      (ds : List String) → is_empty (regressions t before after ds) ≡ true → All NoCliff ds
  unfolding regressions
  regressions-none [] h = tt
  regressions-none (d ∷ ds) h =
      elim (Bool-cases
        (ltb_double (delta_of before after d) (neg_double t.per_domain_max_regression))) [
          | inl e ↦ absurd (ground (arith, e, h))
          | inr e ↦ (e, regressions-none ds (rw e at h))
        ]

  none-regressions :
      (ds : List String) → All NoCliff ds → is_empty (regressions t before after ds) ≡ true
  unfolding regressions
  none-regressions [] h = refl
  none-regressions (d ∷ ds) h = rw h.0 (none-regressions ds h.1)

  shared_none :
      is_empty (regressions t before after (shared_domains before after)) ≡ true
      ↔ ((d : String) → has d before ≡ true → has d after ≡ true → NoCliff d)
  unfolding shared_domains
  shared_none = (
    λ h d b a.
        All-In NoCliff d (shared_domains before after) (regressions-none _ h) (
          In-sort_by str_lt d _ (In-keep (λ x. has x after) d (keys before) (has-In d before b) a)),
    λ f. none-regressions _ (
        All-sort_by str_lt NoCliff _ (
          All-keep_test NoCliff (λ x. has x after) (keys before)
            (λ d i a. f d (In-has d before i) a))),
  )

module _ (champion challenger : EvalRow) (t : GateThresholds)
    (champion_is_stub challenger_is_stub : Option Bool) where
  abbrev tests_of : Bool
  tests_of =
      not (is_stub champion_is_stub champion)
      && (not (is_stub challenger_is_stub challenger)
          && (not (t.require_judge_match && not (judge_of champion == judge_of challenger))
              && (not (ltb (count_of champion) t.min_n_eval)
                  && (not (ltb (count_of challenger) t.min_n_eval)
                      && (not (
                            ltb_double (sub_double (mean_of challenger) (mean_of champion))
                              t.mean_score_delta)
                          && is_empty (
                              regressions t (domains_of champion) (domains_of challenger)
                                (shared_domains (domains_of champion) (domains_of challenger))))))))

  accept-tests :
      (decide champion challenger t champion_is_stub challenger_is_stub).accept ≡ tests_of
  unfolding decide
  accept-tests = simp is_empty-reason_if

  tests-parts :
      tests_of ≡ true
      → (is_stub champion_is_stub champion ≡ false)
        × (is_stub challenger_is_stub challenger ≡ false)
        × ((t.require_judge_match ≡ false) ⊎ (judge_of champion ≡ judge_of challenger))
        × (t.min_n_eval ≤ count_of champion)
        × (t.min_n_eval ≤ count_of challenger)
        × (ltb_double (sub_double (mean_of challenger) (mean_of champion)) t.mean_score_delta
            ≡ false)
        × ((d : String)
            → has d (domains_of champion) ≡ true
            → has d (domains_of challenger) ≡ true
            → ltb_double
                (delta_of (domains_of champion) (domains_of challenger) d)
                (neg_double t.per_domain_max_regression)
              ≡ false)
  tests-parts h =
      let (a, h1) = and_split _ _ h in
      let (b, h2) = and_split _ _ h1 in
      let (c, h3) = and_split _ _ h2 in
      let (d, h4) = and_split _ _ h3 in
      let (e, h5) = and_split _ _ h4 in
      let (f, g) = and_split _ _ h5 in
      let cliffs = (shared_none t (domains_of champion) (domains_of challenger)).0 g in
      (
        not-true a,
        not-true b,
        judges t.require_judge_match _ _ (not-true c),
        ltb→ge _ _ (not-true d),
        ltb→ge _ _ (not-true e),
        not-true f,
        cliffs,
      )

  parts-tests : Passes champion challenger t champion_is_stub challenger_is_stub → tests_of ≡ true
  parts-tests p = and_join (ap not p.champion_real) (
      and_join (ap not p.challenger_real) (
        and_join (ap not (no_mismatch t.require_judge_match _ _ p.same_judge)) (
          and_join (ap not (not_lt p.champion_sampled)) (
            and_join (ap not (not_lt p.challenger_sampled)) (
              and_join (ap not p.lifted)
                ((shared_none t (domains_of champion) (domains_of challenger)).1 p.no_cliff))))))

  -- The gate accepts exactly where both artifacts are real, the judges agree or need not, both sides
  -- were evaluated on enough prompts, the float difference of the means is not below the required one,
  -- and for no domain that both sides have is the float difference below the allowed one. A difference
  -- that is no number passes.
  pub accept_iff :
      ((decide champion challenger t champion_is_stub challenger_is_stub).accept ≡ true)
      ↔ Passes champion challenger t champion_is_stub challenger_is_stub
  accept_iff = (
    λ h.
        let (a, b, c, d, e, f, g) = tests-parts (sym accept-tests ∙ h) in
        record {
          champion_real = a;
          challenger_real = b;
          same_judge = c;
          champion_sampled = d;
          challenger_sampled = e;
          lifted = f;
          no_cliff = g;
        },
    λ p. accept-tests ∙ parts-tests p,
  )
