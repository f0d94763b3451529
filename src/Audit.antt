-- ===== src/Audit.antt =====
-- The audit log: cli/internal/audit/audit.go. Recording is best effort; its error is dropped.
use patrabahok.Base.{ℕ, Bool, true, ◌||◌, List, [], ◌∷◌, ◌++◌, if◌then◌else◌, leb, length, take}
use patrabahok.Base.Text.{Text, trim_space, is_empty}
use patrabahok.Base.Table.{rows_where}
use patrabahok.Base.Int.{ℤ}
use patrabahok.Db.{Env, State, AuditRow, M, pure, ◌>>=◌, exec, query, attempt}
use patrabahok.Db.Page.{limit_or_default, page_of}
use patrabahok.Db.Like.{like, escape_like}

unfoldable pub clip : Text → ℕ → Text
clip s n = if leb (length s) n then s else take n s

unfoldable pub insert_entry : Text → Text → Text → Text → Text → State → Unit {0} × State
unfolding clip
insert_entry actor action target detail ip s = (
  tt,
  record s {
    audit =
        s.audit
        ++ record {
          at = s.now;
          actor = clip actor 255;
          action = clip action 64;
          target = clip target 255;
          detail = clip detail 1000;
          ip = clip ip 64;
        }
          ∷ [];
  },
)

unfoldable pub log_change : Text → Text → Text → Text → Text → M (Unit {0})
unfolding insert_entry
log_change actor action target detail ip = do
  logged ← attempt (exec (insert_entry actor action target detail ip))
  pure tt

pub record Filter : Type 0 where
  pub query : Text
  pub limit : ℤ
  pub offset : ℤ

-- ORDER BY id DESC
unfoldable pub reverse_onto : List AuditRow → List AuditRow → List AuditRow
reverse_onto [] done = done
reverse_onto (e ∷ es) done = reverse_onto es (e ∷ done)

module _ ⦃env : Env⦄ where
  unfoldable pub matches : Text → AuditRow → Bool
  matches q e =
      if is_empty q
      then true
      else let pattern = b'%' ∷ escape_like q ++ b'%' ∷ [] in
        like pattern e.actor
        || like pattern e.action
        || like pattern e.target
        || like pattern e.detail

  unfoldable pub audit_list : Filter → M (List AuditRow × ℕ)
  unfolding page_of matches reverse_onto
  audit_list f = do
    total ← query (λ s. length (rows_where (matches (trim_space f.query)) s.audit))
    rows ← query (λ s. rows_where (matches (trim_space f.query)) s.audit)
    page ← page_of f.offset (limit_or_default f.limit) (reverse_onto rows [])
    pure (page, total)
