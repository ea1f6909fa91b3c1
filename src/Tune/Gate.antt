-- ===== src/Tune/Gate.antt =====
-- packages/slancha-mesh-tune/mesh/eval/gate.py: whether a challenger is promoted. Mean scores are
-- floats. The texts of the reasons and the fields of the verdict that are
-- copied from the rows for provenance are left out.
use slancha_mesh.Common.{
  ℕ, String, Bool, false, Option, none, some, List, [], ◌∷◌, ◌++◌, map, ltb, get_or, str_lt,
  if◌then◌else◌, ◌==◌, ◌&&◌, not, keep, is_empty,
}
use slancha_mesh.Common.Dict.{Assoc, lookup, has}
use slancha_mesh.Common.Int.{pos}
use slancha_mesh.Common.Double.{Double, finite, sub_double, neg_double, ltb_double}
use slancha_mesh.Common.Sort.{sort_by}

pub record GateThresholds : Type 0 where
  pub mean_score_delta : Double
  pub per_domain_max_regression : Double
  pub min_n_eval : ℕ
  pub require_judge_match : Bool

-- The fields of an evaluation row that the decision reads; a key may be missing.
pub record EvalRow : Type 0 where
  pub mean_score : Option Double
  pub per_domain_mean : Option (Assoc Double)
  pub judge_model : Option String
  pub n_eval : Option ℕ
  pub meta_stub : Option Bool
  pub router_version : Option String

pub data Reason : Type 0 where
  champion_stub challenger_stub judge_mismatch champion_small challenger_small mean_below : Reason
  regression : String → Reason

pub record PromotionVerdict : Type 0 where
  pub accept : Bool
  pub reject_reasons : List Reason
  pub mean_delta : Double
  pub per_domain_deltas : Assoc Double
  pub champion_version : String
  pub challenger_version : String
  pub n_eval_champion : ℕ
  pub n_eval_challenger : ℕ
  pub judge_model_champion : String
  pub judge_model_challenger : String

-- 0.0, the default of a score.
abbrev zero_score : Double
zero_score = finite (pos 0)

abbrev pub mean_of : EvalRow → Double
mean_of row = get_or row.mean_score zero_score

abbrev pub domains_of : EvalRow → Assoc Double
domains_of row = get_or row.per_domain_mean []

abbrev pub judge_of : EvalRow → String
judge_of row = get_or row.judge_model "unknown"

abbrev pub count_of : EvalRow → ℕ
count_of row = get_or row.n_eval 0

-- The override, or what the row says.
abbrev pub is_stub : Option Bool → EvalRow → Bool
is_stub none row = get_or row.meta_stub false
is_stub (some stub) row = stub

abbrev pub keys : Assoc Double → List String
keys m = map (λ e. e.0) m

-- sorted(set(champion) & set(challenger))
unfoldable pub shared_domains : Assoc Double → Assoc Double → List String
shared_domains champion challenger = sort_by str_lt (keep (λ d. has d challenger) (keys champion))

abbrev pub delta_of : Assoc Double → Assoc Double → String → Double
delta_of champion challenger d =
    sub_double (get_or (lookup d challenger) zero_score) (get_or (lookup d champion) zero_score)

-- `if test: reasons.append(reason)`
abbrev pub reason_if : Bool → Reason → List Reason
reason_if test reason = if test then reason ∷ [] else []

unfoldable pub regressions :
    GateThresholds → Assoc Double → Assoc Double → List String → List Reason
regressions t champion challenger [] = []
regressions t champion challenger (d ∷ domains) =
    let rest = regressions t champion challenger domains in
    if ltb_double (delta_of champion challenger d) (neg_double t.per_domain_max_regression)
    then regression d ∷ rest
    else rest

unfoldable pub reasons_to_reject : EvalRow → EvalRow → GateThresholds → Bool → Bool → List Reason
unfolding shared_domains regressions
reasons_to_reject champion challenger t champ_stub chall_stub =
    let before = domains_of champion in
    let after = domains_of challenger in
    reason_if champ_stub champion_stub
    ++ (reason_if chall_stub challenger_stub
        ++ (reason_if (t.require_judge_match && not (judge_of champion == judge_of challenger))
              judge_mismatch
            ++ (reason_if (ltb (count_of champion) t.min_n_eval) champion_small
                ++ (reason_if (ltb (count_of challenger) t.min_n_eval) challenger_small
                    ++ (reason_if
                          (ltb_double (sub_double (mean_of challenger) (mean_of champion))
                            t.mean_score_delta)
                          mean_below
                        ++ regressions t before after (shared_domains before after))))))

unfoldable pub decide :
    EvalRow → EvalRow → GateThresholds → Option Bool → Option Bool → PromotionVerdict
unfolding reasons_to_reject
decide champion challenger t champion_is_stub challenger_is_stub =
    let before = domains_of champion in
    let after = domains_of challenger in
    let reasons =
      reasons_to_reject champion challenger t (is_stub champion_is_stub champion)
        (is_stub challenger_is_stub challenger) in
    record {
      accept = is_empty reasons;
      reject_reasons = reasons;
      mean_delta = sub_double (mean_of challenger) (mean_of champion);
      per_domain_deltas = map (λ d. (d, delta_of before after d)) (shared_domains before after);
      champion_version = get_or champion.router_version "";
      challenger_version = get_or challenger.router_version "";
      n_eval_champion = count_of champion;
      n_eval_challenger = count_of challenger;
      judge_model_champion = judge_of champion;
      judge_model_challenger = judge_of challenger;
    }
