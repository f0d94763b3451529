-- ===== src/Dashboard/Groups.antt =====
-- Groups and domains: handlers_groups.go and the changes of handlers_domain.go of cli/internal/webui.
use patrabahok.Base.{
  false, true, ℕ, Bool, ◌||◌, not, Option, none, List, [], ◌∷◌, ◌++◌, if◌then◌else◌, ltb, ◌==◌,
  length,
}
use patrabahok.Base.Text.{Text, codes, is_empty, to_lower, trim_space, text_eq}
use patrabahok.Base.Table.{count_where}
use patrabahok.Db.{Env, M, ◌>>◌}
use patrabahok.Domains.{domain_add, domain_remove}
use patrabahok.Aliases.{catch_all_set}
use patrabahok.Groups.{GroupSettings, group_create, group_delete}
use patrabahok.Groups.Members.{
  MemberResult, group_update, group_add_members, group_remove_member, group_set_member_role,
}
use patrabahok.Groups.Search.{group_list}
use patrabahok.Dashboard.{
  View, done, failed, groups_page, fail_status, show, change, with_form, form_address, arrow,
  counted, Visitor, record_act, recorded,
}
use patrabahok.Dashboard.Users.{is_one}

pub record GroupForm : Type 0 where
  pub local : Text
  pub domain : Text
  pub name : Text
  pub description : Text
  pub post_policy : Text
  pub allow_external : Text

unfoldable pub group_settings_from_form : GroupForm → GroupSettings
group_settings_from_form f = record {
  name = trim_space f.name;
  description = trim_space f.description;
  post_policy = trim_space f.post_policy;
  allow_external = is_one f.allow_external;
}

abbrev pub is_separator : ℕ → Bool
is_separator c = c == 10 || (c == 13 || (c == b',' || (c == b';' || (c == 32 || c == 9))))

-- strings.FieldsFunc: the runs without a separator.
unfoldable pub add_to_first : ℕ → List Text → Bool → List Text
add_to_first c ws fresh = elim ws [
  | [] ↦ (c ∷ []) ∷ []
  | w ∷ rest ↦ if fresh then (c ∷ []) ∷ w ∷ rest else (c ∷ w) ∷ rest
]

-- The fields, and whether a separator or the end follows.
unfoldable pub fields_of : Text → List Text × Bool
unfolding add_to_first
fields_of [] = ([], true)
fields_of (c ∷ s) =
    let (ws, fresh) = fields_of s in
    if is_separator c then (ws, true) else (add_to_first c ws fresh, false)

unfoldable pub split_addresses : Text → List Text
unfolding fields_of
split_addresses raw = (fields_of raw).0

unfoldable pub added_results : List MemberResult → ℕ
added_results results = count_where (λ r. r.added) results

unfoldable pub refused_results : List MemberResult → ℕ
refused_results results = count_where (λ r. not r.added) results

module _ ⦃env : Env⦄ (v : Visitor) where
  unfoldable pub handle_groups_page : Text → Text → M View
  unfolding change
  handle_groups_page domain q = change (group_list domain (trim_space q)) fail_status (λ list.
      change patrabahok.Domains.domain_list fail_status (λ domains. show (groups_page list)))

  unfoldable pub handle_group_new : Option GroupForm → M View
  unfolding with_form change recorded form_address group_settings_from_form
  handle_group_new form = with_form form (λ f.
      let email = form_address f.local f.domain in
      let settings = group_settings_from_form f in
      change (group_create email settings) fail_status (λ created.
        recorded v (codes "group.create") email (codes "posting=" ++ settings.post_policy)))

  unfoldable pub handle_group_save : Text → Option GroupForm → M View
  unfolding with_form change recorded group_settings_from_form
  handle_group_save email form = with_form form (λ f.
      let settings = group_settings_from_form f in
      change (group_update email settings) fail_status (λ saved.
        recorded v (codes "group.update") email (codes "posting=" ++ settings.post_policy)))

  unfoldable pub handle_group_drop : Text → M View
  unfolding change recorded
  handle_group_drop email =
      change (group_delete email) fail_status (λ gone. recorded v (codes "group.delete") email [])

  -- Only what was added is recorded; nothing added and a problem is an error.
  unfoldable pub members_added : Text → Text → List MemberResult → M View
  unfolding record_act added_results refused_results counted
  members_added email role results =
      let ending =
        (if ltb 0 (refused_results results)
          then (if added_results results == 0 then show (failed 400) else show (done none))
          else show (done none)) in
      if ltb 0 (added_results results)
      then record_act v (codes "group.members.add") email
          (counted (added_results results) (codes "member") ++ (codes " (" ++ (role ++ codes ")")))
        >> ending
      else ending

  unfoldable pub handle_group_members_add : Text → Text → Text → M View
  unfolding change split_addresses members_added
  handle_group_members_add email addresses role =
      let list = split_addresses addresses in
      if length list == 0 || ltb 2000 (length list)
      then show (failed 400)
      else change (group_add_members email list (trim_space role)) fail_status
          (members_added email (trim_space role))

  unfoldable pub handle_group_member_role : Text → Text → Text → M View
  unfolding change recorded
  handle_group_member_role email member role =
      change (group_set_member_role email member (trim_space role)) fail_status (λ set.
        recorded v (codes "group.members.role") email (member ++ (32 ∷ (arrow ++ trim_space role))))

  unfoldable pub handle_group_member_remove : Text → Text → M View
  unfolding change recorded
  handle_group_member_remove email member =
      change (group_remove_member email member) fail_status
        (λ removed. recorded v (codes "group.members.remove") email member)

  unfoldable pub handle_domain_new : Option Text → M View
  unfolding with_form change recorded
  handle_domain_new form = with_form form (λ name.
      let domain = to_lower (trim_space name) in
      change (domain_add domain) fail_status (λ added. recorded v (codes "domain.add") domain []))

  unfoldable pub handle_domain_delete : Text → Text → M View
  unfolding change recorded
  handle_domain_delete name confirm =
      if not (text_eq (trim_space confirm) name)
      then show (failed 400)
      else change (domain_remove name) fail_status
          (λ removed. recorded v (codes "domain.delete") name [])

  unfoldable pub handle_domain_catch_all : Text → Text → Text → M View
  unfolding change recorded
  handle_domain_catch_all name destination enabled =
      let dest = if is_one enabled then trim_space destination else [] in
      change (catch_all_set name dest) fail_status (λ set.
        if is_empty dest
        then recorded v (codes "domain.catchall.off") name []
        else recorded v (codes "domain.catchall.set") name dest)
