-- ===== src/Aliases.antt =====
-- Aliases, forwards and catch-alls: cli/internal/mailbox/mailbox.go (AliasAdd, AliasList, AliasRemove)
-- and routing.go.
pub mod ReadBack
use patrabahok.Base.{
  ℕ, ◌+◌, ◌≡◌, Bool, true, false, ◌&&◌, ◌||◌, not, Option, none, some, List, [], ◌∷◌, ◌++◌, map,
  if◌then◌else◌, any, ltb, ◌==◌, length,
}
use patrabahok.Base.Text.{
  Text, codes, text_eq, text_lt, is_empty, has_prefix, to_lower, trim_space, equal_fold,
}
use patrabahok.Base.Table.{rows_where, row_where, delete_where, update_where, order_by}
use patrabahok.Address.{Result, ok, err, invalid, validate_email, split_email}
use patrabahok.Db.{
  Env, State, AliasRow, ForwardRow, M, pure, fail, lift, ◌>>=◌, ◌>>◌, exec, query, refuse_if,
  transaction, same,
}
use patrabahok.Domains.{domain_id, not_a_group, has_user}
use patrabahok.Mailboxes.Change.{mailbox_get}

-- source NOT LIKE '@%'
abbrev pub is_catch_all : AliasRow → Bool
is_catch_all a = has_prefix (codes "@") a.source

pub record Alias : Type 0 where
  pub source : Text
  pub destination : Text

pub record Forward : Type 0 where
  pub destination : Text
  pub keep_copy : Bool

abbrev pub alias_view : AliasRow → Alias
alias_view a = record { source = a.source; destination = a.destination }

-- An error of a check, reported as the caller's.
unfoldable pub as_invalid : Result (Unit {0}) → Result (Unit {0})
as_invalid (ok a) = ok a
as_invalid (err e) = err invalid

module _ ⦃env : Env⦄ where
  unfoldable pub has_pair : Text → Text → State → Bool
  has_pair source destination s =
      any (λ a. same a.source source && same a.destination destination) s.aliases

  -- INSERT IGNORE INTO virtual_aliases: the key is on the pair.
  unfoldable pub insert_alias : AliasRow → State → Unit {0} × State
  insert_alias row s =
      if has_pair row.source row.destination s
      then (tt, s)
      else (tt, record s { aliases = s.aliases ++ row ∷ [] })

  unfoldable pub alias_add : Text → Text → M (Unit {0})
  alias_add source destination = do
    lift (validate_email source)
    lift (validate_email destination)
    (local, domain) ← lift (split_email source)
    id ← domain_id domain
    not_a_group source
    exec (insert_alias (record { domain_id = id; source = source; destination = destination }))

  unfoldable pub by_source : AliasRow → AliasRow → Bool
  by_source a b = text_lt (env.weight a.source) (env.weight b.source)

  unfoldable pub select_aliases : Text → State → List Alias
  unfolding by_source
  select_aliases domain s =
      let plain = rows_where (λ a. not (is_catch_all a)) s.aliases in
      let listed =
        if is_empty domain
        then plain
        else rows_where (λ a. any (λ d. d.id == a.domain_id && same d.name domain) s.domains)
            plain in
      map alias_view (order_by by_source listed)

  unfoldable pub alias_list : Text → M (List Alias)
  alias_list domain = query (select_aliases domain)

  unfoldable pub delete_alias : Text → Text → State → Unit {0} × State
  delete_alias source destination s = (
    tt,
    record s {
      aliases =
          delete_where (λ a. same a.source source && same a.destination destination) s.aliases;
    },
  )

  unfoldable pub alias_remove : Text → Text → M (Unit {0})
  alias_remove source destination = exec (delete_alias source destination)

  unfoldable pub source_of : AliasRow → Text
  source_of a = a.source

  unfoldable pub aliases_to : Text → M (List Text)
  unfolding by_source source_of
  aliases_to destination = query (λ s. map source_of (
      order_by by_source
        (rows_where (λ a. same a.destination destination && not (is_catch_all a)) s.aliases)))

  -- INSERT … ON DUPLICATE KEY UPDATE destination, keep_copy
  unfoldable pub upsert_forward : Text → Text → Bool → State → Unit {0} × State
  upsert_forward email destination keep s = (
    tt,
    if any (λ f. same f.email email) s.forwards
        then record s {
          forwards =
              update_where (λ f. same f.email email)
                (λ f. record f { destination = destination; keep_copy = keep }) s.forwards;
        }
        else record s {
          forwards =
              s.forwards
              ++ record { email = email; destination = destination; keep_copy = keep } ∷ [];
        },
  )

  unfoldable pub forward_view : Option ForwardRow → Option Forward
  forward_view none = none
  forward_view (some f) = some (record { destination = f.destination; keep_copy = f.keep_copy })

  unfoldable pub find_forward : Text → State → Option ForwardRow
  find_forward email s = row_where (λ f. same f.email email) s.forwards

  unfoldable pub forward_get : Text → M (Option Forward)
  unfolding forward_view find_forward
  forward_get email = do found ← query (find_forward email); pure (forward_view found)

  unfoldable pub forward_set : Text → Text → Bool → M (Unit {0})
  unfolding as_invalid
  forward_set email destination keep = do
    let lowered = to_lower (trim_space destination)
    lift (as_invalid (validate_email lowered))
    refuse_if (equal_fold lowered email) invalid
    m ← mailbox_get email
    exec (upsert_forward email lowered keep)

  unfoldable pub forward_clear : Text → M (Unit {0})
  forward_clear email =
      exec (λ s. (tt, record s { forwards = delete_where (λ f. same f.email email) s.forwards }))

  abbrev pub catch_all_source : Text → Text
  catch_all_source domain = b'@' ∷ domain

  unfoldable pub find_catch_all : Text → State → Option AliasRow
  find_catch_all domain s = row_where (λ a. same a.source (catch_all_source domain)) s.aliases

  -- `none` is the empty string.
  unfoldable pub destination_of : Option AliasRow → Text
  destination_of none = []
  destination_of (some a) = a.destination

  unfoldable pub catch_all_get : Text → M Text
  unfolding destination_of find_catch_all
  catch_all_get domain = do found ← query (find_catch_all domain); pure (destination_of found)

  unfoldable pub delete_catch_all : Text → State → Unit {0} × State
  delete_catch_all domain s = (
    tt,
    record s { aliases = delete_where (λ a. same a.source (catch_all_source domain)) s.aliases },
  )

  -- INSERT INTO virtual_aliases, behind a DELETE of the same source.
  unfoldable pub append_alias : AliasRow → State → Unit {0} × State
  append_alias row s = (tt, record s { aliases = s.aliases ++ row ∷ [] })

  unfoldable pub replace_catch_all : ℕ → Text → Text → M (Unit {0})
  unfolding delete_catch_all append_alias
  replace_catch_all id domain destination = transaction (do
    exec (delete_catch_all domain)
    exec (
        append_alias
          (record { domain_id = id; source = catch_all_source domain; destination = destination })))

  unfoldable pub set_catch_all : ℕ → Text → Text → M (Unit {0})
  unfolding replace_catch_all as_invalid
  set_catch_all id domain destination = do
    let lowered = to_lower (trim_space destination)
    lift (as_invalid (validate_email lowered))
    replace_catch_all id domain lowered

  unfoldable pub catch_all_set : Text → Text → M (Unit {0})
  unfolding set_catch_all delete_catch_all
  catch_all_set domain destination = do
    id ← domain_id domain
    if is_empty destination
        then exec (delete_catch_all domain)
        else set_catch_all id domain destination
