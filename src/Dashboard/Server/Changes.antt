-- ===== src/Dashboard/Server/Changes.antt =====
-- Changes of the dashboard that are recorded behind them answer, and leave valid tables.
use patrabahok.Base.{Option, none, some, ◌==◌, List, ltb, ℕ, if◌then◌else◌}
use patrabahok.Base.Text.{Text}
use patrabahok.Base.Int.{ℤ}
use patrabahok.Address.{Error}
use patrabahok.Db.{Env, M}
use patrabahok.Db.Keeps.{Keeps}
use patrabahok.Db.Answers.{Answers, pure-Answers, if-Answers, bind-Answers}
use patrabahok.Domains.{Kind, user, group, alias}
use patrabahok.Groups.Members.{MemberResult}
use patrabahok.Invariant.{IsValid}
use patrabahok.Invariant.Operations.{}
use patrabahok.Invariant.Operations.Routes.{alias_add-Valid}
use patrabahok.Invariant.Operations.Members.{}
use patrabahok.Dashboard.{show, done, failed, change, Visitor, recorded}
use patrabahok.Dashboard.Users.{alias_unless_taken}
use patrabahok.Dashboard.Groups.{members_added, added_results, refused_results}
use patrabahok.Dashboard.Server.Parts.{
  IsValid-other, change-Answers, record_act-Answers, recorded-Answers,
}
use patrabahok.Dashboard.Server.Signing.{}

module _ ⦃env : Env⦄ where
  pub written-Answers :
      (v : Visitor) (action target detail : Text)
      → Answers IsValid (recorded v action target detail)
  written-Answers v action target detail =
      recorded-Answers IsValid IsValid-other v action target detail

  -- A change that keeps the tables valid, recorded behind it.
  pub written_down-Answers :
      {A : Type 0} (m : M A) (status : Error → ℕ) (v : Visitor) (action target : A → Text)
      (detail : A → Text)
      → Keeps IsValid m
      → Answers IsValid (change m status (λ a. recorded v (action a) (target a) (detail a)))
  written_down-Answers m status v action target detail keep =
      change-Answers IsValid m status _ keep (λ a. written-Answers v _ _ _)

  pub alias_unless_taken-Answers :
      (show_bytes : ℤ → Text) (v : Visitor) (email source : Text) (o : Option Kind)
      → Answers IsValid (alias_unless_taken show_bytes v email source o)
  unfolding alias_unless_taken
  alias_unless_taken-Answers show_bytes v email source (some user) = pure-Answers IsValid _
  alias_unless_taken-Answers show_bytes v email source (some group) = pure-Answers IsValid _
  alias_unless_taken-Answers show_bytes v email source (some alias) =
      written_down-Answers _ _ v _ _ _ (λ s h. alias_add-Valid source email h)
  alias_unless_taken-Answers show_bytes v email source none =
      written_down-Answers _ _ v _ _ _ (λ s h. alias_add-Valid source email h)

  summed-Answers :
      (results : List MemberResult)
      → Answers IsValid (
          if ltb 0 (refused_results results)
          then (if added_results results == 0 then show (failed 400) else show (done none))
          else show (done none))
  summed-Answers results =
      if-Answers IsValid (ltb 0 (refused_results results)) _ _
        (if-Answers IsValid (added_results results == 0) _ _ (pure-Answers IsValid (failed 400))
          (pure-Answers IsValid (done none)))
        (pure-Answers IsValid (done none))

  pub members_added-Answers :
      (v : Visitor) (email role : Text) (results : List MemberResult)
      → Answers IsValid (members_added v email role results)
  unfolding members_added
  members_added-Answers v email role results =
      if-Answers IsValid (ltb 0 (added_results results)) _ _
        (bind-Answers IsValid _ _ (record_act-Answers IsValid IsValid-other v _ _ _)
          (λ _. summed-Answers results))
        (summed-Answers results)
