-- ===== src/Server/Oauth/Linking.antt =====
-- When a calendar is linked.
use busybar_bridge.Prelude.{
  ◌≡◌, ◌⊎◌, inl, inr, refl, sym, ap, ◌∙◌, true, false, not, ◌||◌, Option, none, some, arith,
  if-cases,
}
use busybar_bridge.Prelude.Result.{Result, ok, err}
use busybar_bridge.Prelude.Text.{Text, codes, is_empty, text_eq, text_eq_iff, trim_space}
use busybar_bridge.Calendar.Store.{CalendarBinding, Store, StoreError, Disk, Calls, Saved, save}
use busybar_bridge.Calendar.Store.Binding.{IsAtomic, save-IsAtomic}
use busybar_bridge.Server.Http.{Request, query_get, is_get_or_head, Reply, redirect, clearing}
use busybar_bridge.Server.Oauth.{
  Called, replied, after_save, link, exchange, check_state, check_cookie, handle_callback,
  store_is_bound,
}

module _ {Bytes : Type 0} (marshal : CalendarBinding → Option Bytes) (dir : Text → Text)
    (escape : Text → Text) (calls : Calls Bytes) where
  -- Neither the store nor its file changed.
  pub record Unchanged (store : Option Store) (disk : Disk Bytes) (out : Called Bytes)
      : Type 0 where
    pub store_kept : out.store ≡ store
    pub file_kept : out.disk.file ≡ disk.file

  -- The calendar was linked: what the request and Google had to say for it, and what was written.
  pub record Linked (store : Option Store) (manager : Option (Text → Result Text CalendarBinding))
      (r : Request) (out : Called Bytes) : Type 0 where
    pub before : Store
    pub binding : CalendarBinding
    pub exchange_code : Text → Result Text CalendarBinding
    pub stored : store ≡ some before
    pub unbound : before.binding ≡ none
    pub has_manager : manager ≡ some exchange_code
    pub method : is_get_or_head r ≡ true
    pub state : r.oauth_state ≡ some (query_get r (codes "state"))
    pub state_given : is_empty (query_get r (codes "state")) ≡ false
    pub no_error : is_empty (query_get r (codes "error")) ≡ true
    pub exchanged : exchange_code (query_get r (codes "code")) ≡ ok binding
    pub linked : out.store ≡ some (record before { binding = some binding })
    pub reply : out.reply ≡ clearing (redirect (codes "/status?success=linked") 303)

  -- What a save did for a link.
  abbrev Ended : Store → Disk Bytes → CalendarBinding → Called Bytes → Type 0
  Ended s disk b out =
      Unchanged (some s) disk out
      ⊎ ((s.binding ≡ none)
          × (out.store ≡ some (record s { binding = some b }))
          × (out.reply ≡ clearing (redirect (codes "/status?success=linked") 303)))

  after_save-Ended :
      (s : Store) (disk : Disk Bytes) (b : CalendarBinding) (out : Saved Bytes)
      (e : Option StoreError)
      → out.error ≡ e
      → IsAtomic marshal dir calls s disk (some b) out
      → Ended s disk b (after_save out e)
  unfolding after_save
  after_save-Ended s disk b out none e (inl v) = inr (
    v.unbound,
    ap (λ x. some x) (v.bound ∙ ap (λ x. record s { binding = x }) (sym v.given)),
    refl,
  )
  after_save-Ended s disk b out none e (inr v) = absurd (ground arith)
  after_save-Ended s disk b out (some x) e (inl v) = absurd (ground arith)
  after_save-Ended s disk b out (some x) e (inr v) =
      inl (record { store_kept = ap (λ y. some y) v.store; file_kept = v.file })

  replied-Unchanged :
      (store : Option Store) (disk : Disk Bytes) (reply : Reply)
      → Unchanged store disk (replied store disk reply)
  unfolding replied
  replied-Unchanged store disk reply = record { store_kept = refl; file_kept = refl }

  link-cases :
      (store : Option Store) (disk : Disk Bytes)
      (manager : Option (Text → Result Text CalendarBinding))
      (f : Text → Result Text CalendarBinding) (r : Request) (a : Result Text CalendarBinding)
      → manager ≡ some f
      → f (query_get r (codes "code")) ≡ a
      → is_get_or_head r ≡ true
      → r.oauth_state ≡ some (query_get r (codes "state"))
      → is_empty (query_get r (codes "state")) ≡ false
      → is_empty (query_get r (codes "error")) ≡ true
      → Unchanged store disk (link marshal dir escape calls store disk a)
        ⊎ Linked store manager r (link marshal dir escape calls store disk a)
  unfolding link
  link-cases store disk manager f r (err x) m e g c n o = inl (replied-Unchanged store disk _)
  link-cases none disk manager f r (ok b) m e g c n o = inl (replied-Unchanged none disk _)
  link-cases (some s) disk manager f r (ok b) m e g c n o =
      let out = save marshal dir calls s disk (some b) in
      elim (after_save-Ended s disk b out out.error refl
        (save-IsAtomic marshal dir calls s disk (some b))) [
          | inl v ↦ inl v
          | inr (u, l, p) ↦ inr (record {
            before = s;
            binding = b;
            exchange_code = f;
            stored = refl;
            unbound = u;
            has_manager = m;
            method = g;
            state = c;
            state_given = n;
            no_error = o;
            exchanged = e;
            linked = l;
            reply = p;
          })
        ]

  exchange-cases :
      (store : Option Store) (disk : Disk Bytes)
      (manager : Option (Text → Result Text CalendarBinding)) (r : Request)
      → is_get_or_head r ≡ true
      → r.oauth_state ≡ some (query_get r (codes "state"))
      → is_empty (query_get r (codes "state")) ≡ false
      → is_empty (query_get r (codes "error")) ≡ true
      → let out =
          exchange marshal dir escape calls store disk manager (query_get r (codes "code")) in
        Unchanged store disk out ⊎ Linked store manager r out
  unfolding exchange
  exchange-cases store disk none r g c n o = inl (replied-Unchanged store disk _)
  exchange-cases store disk (some f) r g c n o =
      link-cases store disk (some f) f r _ refl refl g c n o

  check_state-cases :
      (store : Option Store) (disk : Disk Bytes)
      (manager : Option (Text → Result Text CalendarBinding)) (r : Request) (cookie : Text)
      → is_get_or_head r ≡ true
      → r.oauth_state ≡ some cookie
      → let out = check_state marshal dir escape calls store disk manager r cookie in
        Unchanged store disk out ⊎ Linked store manager r out
  unfolding check_state
  check_state-cases store disk manager r cookie g c =
      let state = query_get r (codes "state") in
      if-cases (λ out. Unchanged store disk out ⊎ Linked store manager r out)
        (is_empty (trim_space cookie)) _ _ (λ e. inl (replied-Unchanged store disk _))
        (λ e₁.
          if-cases (λ out. Unchanged store disk out ⊎ Linked store manager r out)
            (is_empty state || not (text_eq state cookie)) _ _
            (λ e. inl (replied-Unchanged store disk _))
            (λ e₂.
              if-cases (λ out. Unchanged store disk out ⊎ Linked store manager r out)
                (not (is_empty (query_get r (codes "error")))) _ _
                (λ e. inl (replied-Unchanged store disk _))
                (λ e₃.
                  if-cases (λ out. Unchanged store disk out ⊎ Linked store manager r out)
                    (is_empty (trim_space (query_get r (codes "code")))) _ _
                    (λ e. inl (replied-Unchanged store disk _))
                    (λ e₄.
                      exchange-cases store disk manager r g
                        (c ∙ ap (λ x. some x) (sym ((text_eq_iff state cookie).0 (ground arith))))
                        (ground arith) (ground arith)))))

  check_cookie-cases :
      (store : Option Store) (disk : Disk Bytes)
      (manager : Option (Text → Result Text CalendarBinding)) (r : Request) (cookie : Option Text)
      → is_get_or_head r ≡ true
      → r.oauth_state ≡ cookie
      → let out = check_cookie marshal dir escape calls store disk manager r cookie in
        Unchanged store disk out ⊎ Linked store manager r out
  unfolding check_cookie
  check_cookie-cases store disk manager r none g c = inl (replied-Unchanged store disk _)
  check_cookie-cases store disk manager r (some cookie) g c =
      check_state-cases store disk manager r cookie g c

  -- The OAuth callback changes the calendar store in one way only. On every other branch the store and
  -- its file are as before. If the store changed, then the request was a GET or HEAD, its `state` was
  -- given and equal to the cookie `oauth_state`, it carried no error, the manager exchanged its code
  -- for the very binding that was stored, the store was unbound before, and the reply says `linked`
  -- and clears the cookie.
  pub handle_callback-Linked :
      (store : Option Store) (disk : Disk Bytes)
      (manager : Option (Text → Result Text CalendarBinding)) (r : Request)
      → let out = handle_callback marshal dir escape calls store disk manager r in
        Unchanged store disk out ⊎ Linked store manager r out
  unfolding handle_callback
  handle_callback-Linked store disk manager r =
      if-cases (λ out. Unchanged store disk out ⊎ Linked store manager r out)
        (not (is_get_or_head r)) _ _ (λ e. inl (replied-Unchanged store disk _))
        (λ e₁.
          if-cases (λ out. Unchanged store disk out ⊎ Linked store manager r out)
            (store_is_bound store) _ _ (λ e. inl (replied-Unchanged store disk _))
            (λ e₂. check_cookie-cases store disk manager r r.oauth_state (ground arith) refl))
