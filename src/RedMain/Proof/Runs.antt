-- ===== src/RedMain/Proof/Runs.antt =====
-- The runs of a branch and the newest verified commit: from `branch_history` to `last_verified` of
-- red_main/proof.py.
use github.Base.{ℕ, zero, suc, String, ◌<>◌, Bool, true, false, not, ◌&&◌, ◌||◌, Option, none, some}
use github.Base.{List, [], ◌∷◌, select, ltb, ◌==◌, nat_eq, string_eq, if◌then◌else◌}
use github.Base.Text.{split, is_blank}
use github.Json.{Value, get, find, obj, str, text_of, list_of, positive_of, is_text, is_truthy}
use github.RedMain.Proof.Origin.{
  Origin, ineligible, producer_origin, positive_id, valid_sha, has_text,
}
use github.RedMain.Proof.Pages.{Row, and_then, page_limit, run_page_limit, paged}
use github.RedMain.Proof.Checks.{id_of}
use github.RedMain.Proof.Verdict.{checked_verdict}

-- `workflow.rsplit('/', 1)[-1]`
abbrev pub last_of : String → List String → String
last_of s [] = s
last_of s (part ∷ parts) = last_of part parts

abbrev pub file_of : String → String
file_of workflow = last_of workflow (split b'/' workflow)

abbrev is_other_text : String → Option String → Bool
is_other_text s none = false
is_other_text s (some t) = not (t == s)

abbrev is_set : Option String → Bool
is_set none = false
is_set (some s) = true

-- A row that can be placed, elsewhere.
abbrev pub is_elsewhere : String → Row → Bool
is_elsewhere branch row =
    is_set (text_of (get row "event"))
    && is_set (text_of (get row "head_branch"))
    && (is_other_text "push" (text_of (get row "event"))
        || is_other_text branch (text_of (get row "head_branch")))

-- `urlencode` of the query of one commit's pushes is a parameter: a function of the standard library.
module _ (api : String → Option Value) (urlencode : String → String → String → String) where
  unfoldable pub branch_history : String → String → String → Option (List Row)
  branch_history repo branch workflow =
      and_then
        (paged api ("repos/" <> (repo <> ("/actions/workflows/" <> (file_of workflow <> "/runs"))))
          "workflow_runs" run_page_limit)
        (λ rows. some (select (λ row. not (is_elsewhere branch row)) rows))

  -- `sha is not None and row["head_sha"] != sha`, negated
  abbrev is_commit : Option String → Row → Bool
  is_commit none row = true
  is_commit (some sha) row = has_text sha (get row "head_sha")

  abbrev pub is_ordered : Option String → Row → Bool
  is_ordered sha row =
      positive_id (get row "id")
      && positive_id (get row "run_attempt")
      && valid_sha (get row "head_sha")
      && is_commit sha row

  -- What a row does to the candidates: it is passed over, or kept, or raises.
  abbrev pub keep_row : Option String → Origin → Row → Option (List Row) → Option (List Row)
  keep_row sha ineligible row rest = rest
  keep_row sha _ row rest =
      if is_ordered sha row then and_then rest (λ rows. some (row ∷ rows)) else none

  unfoldable pub candidates_of :
      String → String → String → Option String → List Row → Option (List Row)
  candidates_of repo branch workflow sha [] = some []
  candidates_of repo branch workflow sha (row ∷ rows) =
      keep_row sha (producer_origin (obj row) repo branch workflow sha) row
        (candidates_of repo branch workflow sha rows)

  abbrev pub listed_runs : String → String → String → Option String → Option (List Row)
  listed_runs repo branch workflow none = branch_history repo branch workflow
  listed_runs repo branch workflow (some sha) =
      if is_blank sha
      then branch_history repo branch workflow
      else paged api
          ("repos/"
            <> (repo
                <> ("/actions/workflows/"
                    <> (file_of workflow <> ("/runs?" <> urlencode "push" branch sha)))))
          "workflow_runs" page_limit

  unfoldable pub push_runs : String → String → String → Option String → Option (List Row)
  unfolding candidates_of branch_history
  push_runs repo branch workflow sha =
      and_then (listed_runs repo branch workflow sha) (candidates_of repo branch workflow sha)

  abbrev attempt_of : Row → ℕ
  attempt_of row = elim (positive_of (get row "run_attempt")) [ none ↦ 0 | some n ↦ n ]

  -- The key `(id, run_attempt)` of the second is greater.
  abbrev pub newer : Row → Row → Bool
  newer a b = ltb (id_of a) (id_of b) || (id_of a == id_of b && ltb (attempt_of a) (attempt_of b))

  -- `max(…, key=…)`, which keeps the first of equal keys
  unfoldable pub newest_from : Row → List Row → Row
  newest_from best [] = best
  newest_from best (row ∷ rows) = newest_from (if newer best row then row else best) rows

  abbrev newest_of : List Row → Option Row
  newest_of [] = none
  newest_of (row ∷ rows) = some (newest_from row rows)

  unfoldable pub latest_run : List Row → String → Option Row
  unfolding newest_from
  latest_run rows sha = newest_of (select (λ row. is_text sha (get row "head_sha")) rows)

  abbrev verdict_or_unknown : String → String → String → String → Option Row → Option Value
  verdict_or_unknown repo branch workflow name none = some (str "unknown")
  verdict_or_unknown repo branch workflow name (some run) =
      checked_verdict api (obj run) repo branch workflow name

  unfoldable pub sha_verdict : String → String → String → String → String → Option Value
  unfolding push_runs latest_run
  sha_verdict repo branch workflow sha name =
      and_then (push_runs repo branch workflow (some sha))
        (λ rows. verdict_or_unknown repo branch workflow name (latest_run rows sha))

  -- The commit if its verdict is a success, or else what the rest of the walk gives.
  abbrev pub if_success : String → Value → Option String → Option String
  if_success sha verdict rest = if is_text "success" verdict then some sha else rest

  -- The walk over the ancestors, which git lists for a local head.
  unfoldable pub walk_verified : String → String → String → String → List String → Option String
  walk_verified repo branch workflow name [] = some ""
  walk_verified repo branch workflow name (sha ∷ ancestors) =
      let rest = walk_verified repo branch workflow name ancestors in
      and_then (sha_verdict repo branch workflow sha name) (λ verdict. if_success sha verdict rest)

  abbrev first_parent : List Value → Option (Option String)
  first_parent [] = some none
  first_parent (obj parent ∷ parents) =
      and_then (text_of (get parent "sha")) (λ sha. some (some sha))
  first_parent _ = none

  -- `api(commit).get("parents", [])`, and the first of them
  abbrev parents_at : Option Value → Option (List Value)
  parents_at none = some []
  parents_at (some v) = if is_truthy v then list_of v else some []

  abbrev pub parent_of : String → String → Option (Option String)
  parent_of repo sha = and_then (api ("repos/" <> (repo <> ("/commits/" <> sha)))) λ body.
      elim body [ obj fs ↦ and_then (parents_at (find fs "parents")) first_parent | _ ↦ none ]

  -- The walk over the first parents that the API names, one after the other.
  unfoldable pub walk_remote : String → String → String → String → ℕ → String → Option String
  walk_remote repo branch workflow name zero sha = some ""
  walk_remote repo branch workflow name (suc left) sha = and_then (parent_of repo sha) λ parent.
      elim parent [
        | none ↦ some ""
        | some next ↦
            and_then (sha_verdict repo branch workflow next name)
              (λ verdict. if_success next verdict (walk_remote repo branch workflow name left next))
      ]

  abbrev pub walk_limit : ℕ
  walk_limit = 200

  unfoldable pub last_verified : String → String → String → String → List String → Option String
  unfolding walk_verified
  last_verified repo branch workflow name ancestors =
      walk_verified repo branch workflow name ancestors

  unfoldable pub last_verified_remote : String → String → String → String → String → Option String
  unfolding walk_remote
  last_verified_remote repo branch workflow name head =
      walk_remote repo branch workflow name walk_limit head
