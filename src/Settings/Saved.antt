-- ===== src/Settings/Saved.antt =====
-- What a user saves is what the user then reads.
use stock_monitor.Base.{
  ℕ, ◌≡◌, refl, ap, sym, ◌∙◌, false, ◌&&◌, Option, some, List, [], ◌++◌, ◌==◌, ==_iff, find, All,
  inl, inr, Option-cases,
}
use stock_monitor.Base.Text.{Text, codes, is_empty, join}
use stock_monitor.Float.{Float}
use stock_monitor.Http.{ok}
use stock_monitor.Table.{update_where, find-append}
use stock_monitor.Portfolio.{CurrentUser}
use stock_monitor.Watchlist.{or_old}
use stock_monitor.Settings.Columns.{find-update, HasNoComma, words_of-join, and_false}
use stock_monitor.Settings.{
  UserSettings, UserSettingsUpdate, Normalized, normalized, is_blank, apply, listed, is_settings_of,
  words_of, joined, is_none,
}
use stock_monitor.Settings.Requests.{
  view_of, all_markets, two_times, Arrivals, default_settings, create_settings,
  get_or_create_user_settings, get_settings, update_settings,
}

module _ {N : Type 0} ⦃f : Float N⦄ where
  -- Whatever other sessions commit meanwhile, the row that is read or created is the user's first.
  create_settings-find :
      (user : ℕ) (during rows : List (UserSettings N))
      → let (s, left) = create_settings user during rows in find (is_settings_of user) left ≡ some s
  unfolding create_settings
  create_settings-find user during rows =
      elim (Option-cases (find (is_settings_of user) (rows ++ during))) [
        | inr (s, e) ↦ rw (create_settings, e) e
        | inl e ↦
            rw (create_settings, e)
              (find-append (is_settings_of user) (rows ++ during)
                (default_settings user (rows ++ during)) e ((==_iff user user).1 refl))
      ]

  get_or_create-find :
      (user : ℕ) (arrivals : Arrivals N) (rows : List (UserSettings N))
      → let (s, left) = get_or_create_user_settings user arrivals rows in
        find (is_settings_of user) left ≡ some s
  unfolding get_or_create_user_settings
  get_or_create-find user arrivals rows = elim (Option-cases (find (is_settings_of user) rows)) [
    | inr (s, e) ↦ rw (get_or_create_user_settings, e) e
    | inl e ↦ elim (Option-cases (find (is_settings_of user) (rows ++ arrivals.before))) [
      | inr (s, k) ↦ rw (get_or_create_user_settings, e, k) k
      | inl k ↦
          rw (get_or_create_user_settings, e, k)
            (create_settings-find user arrivals.during (rows ++ arrivals.before))
    ]
  ]

  module _ (user : CurrentUser) (n : Normalized N) (s : UserSettings N)
      (left : List (UserSettings N)) (e : find (is_settings_of user.id) left ≡ some s) where
    -- The row of the user after the update.
    applied-find :
        find (is_settings_of user.id) (update_where (λ t. t.id == s.id) (apply n) left)
        ≡ some (apply n s)
    applied-find =
        find-update (is_settings_of user.id) (λ t. t.id == s.id) (apply n) (λ x. refl) left s e
        ∙ rw ((==_iff s.id s.id).1 refl) refl

  -- A user who is stored already is read, and no row is added.
  get_or_create-found :
      (user : ℕ) (arrivals : Arrivals N) (rows : List (UserSettings N)) (s : UserSettings N)
      → find (is_settings_of user) rows ≡ some s
      → get_or_create_user_settings user arrivals rows ≡ (s, rows)
  unfolding get_or_create_user_settings
  get_or_create-found user arrivals rows s e = rw (get_or_create_user_settings, e) refl

  get_settings-found :
      (user : CurrentUser) (decrypt : Text → Option Text) (env_key : Option Text)
      (arrivals : Arrivals N) (rows : List (UserSettings N)) (s : UserSettings N)
      → find (is_settings_of user.id) rows ≡ some s
      → (get_settings user decrypt env_key arrivals rows).0.0 ≡ view_of all_markets two_times s
  unfolding get_settings
  get_settings-found user decrypt env_key arrivals rows s e =
      ap (λ r. view_of all_markets two_times r.0) (get_or_create-found user.id arrivals rows s e)

  update_settings-ok :
      (user : CurrentUser) (update_data : UserSettingsUpdate N) (arrivals : Arrivals N)
      (rows : List (UserSettings N))
      → is_blank (normalized update_data) ≡ false
      → let n = normalized update_data in
        let (s, left) = get_or_create_user_settings user.id arrivals rows in
        update_settings user update_data arrivals rows
        ≡ (ok (view_of [] [] (apply n s)), update_where (λ t. t.id == s.id) (apply n) left)
  unfolding update_settings
  update_settings-ok user update_data arrivals rows e = rw e refl

  module _ (update_data : UserSettingsUpdate N) (markets times : List Text)
      (m : update_data.markets ≡ some (listed markets))
      (t : or_old update_data.advice_times update_data.report_times ≡ some (listed times))
      (hm : All HasNoComma markets × (is_empty (join (codes ",") markets) ≡ false))
      (ht : All HasNoComma times × (is_empty (join (codes ",") times) ≡ false)) where
    not_blank : is_blank (normalized update_data) ≡ false
    not_blank =
        and_false (is_none update_data.strategy) (is_none (joined update_data.markets))
          (is_none (or_old update_data.total_budget update_data.budget)
            && (is_none (or_old update_data.advice_frequency update_data.report_freq)
                && is_none (joined (or_old update_data.advice_times update_data.report_times))))
          (ap (λ w. is_none (joined w)) m)

    viewed-markets :
        (default more : List Text) (s : UserSettings N)
        → (view_of default more (apply (normalized update_data) s)).markets ≡ markets
    viewed-markets default more s =
        ap (λ w. words_of (or_old (joined w) s.markets) default) m
        ∙ words_of-join markets default hm.0 hm.1

    viewed-times :
        (default more : List Text) (s : UserSettings N)
        → (view_of more default (apply (normalized update_data) s)).report_times ≡ times
    viewed-times default more s =
        ap (λ w. words_of (or_old (joined w) s.advice_times) default) t
        ∙ words_of-join times default ht.0 ht.1

    -- The defaults do not show.
    viewed :
        (d e d' e' : List Text) (s : UserSettings N)
        → view_of d e (apply (normalized update_data) s)
          ≡ view_of d' e' (apply (normalized update_data) s)
    viewed d e d' e' s =
        let v = view_of d e (apply (normalized update_data) s) in
        ap (λ w. record v { markets = w }) (viewed-markets d e s ∙ sym (viewed-markets d' e' s))
        ∙ ap (λ w. record (view_of d' e (apply (normalized update_data) s)) { report_times = w })
            (viewed-times e d s ∙ sym (viewed-times e' d' s))

  -- Markets and times that are sent as lists of words without a comma, and not as one empty text,
  -- come back as they were sent. While no other session changes the user's row during the PUT, the PUT
  -- answers 200; and a later GET of the same user, at which the table may be another one but has the
  -- user's row as the PUT left it, gives the same answer. It has the budget that was sent, or, if none
  -- was, the one that a GET would have shown in place of the PUT.
  pub settings_roundtrip :
      (user : CurrentUser) (update_data : UserSettingsUpdate N) (arrivals later : Arrivals N)
      (rows between : List (UserSettings N)) (decrypt : Text → Option Text) (env_key : Option Text)
      (markets times : List Text)
      → update_data.markets ≡ some (listed markets)
      → or_old update_data.advice_times update_data.report_times ≡ some (listed times)
      → All HasNoComma markets × (is_empty (join (codes ",") markets) ≡ false)
      → All HasNoComma times × (is_empty (join (codes ",") times) ≡ false)
      → find (is_settings_of user.id) between
        ≡ find (is_settings_of user.id) (update_settings user update_data arrivals rows).1
      → let put = update_settings user update_data arrivals rows in
        let view = (get_settings user decrypt env_key later between).0.0 in
        (put.0 ≡ ok view)
        × (view.markets ≡ markets)
        × (view.report_times ≡ times)
        × (view.budget
            ≡ or_old
                (or_old update_data.total_budget update_data.budget)
                (get_settings user decrypt env_key arrivals rows).0.0.budget)
  unfolding get_settings
  settings_roundtrip user update_data arrivals later rows between decrypt env_key markets times m t
        hm ht kept =
      let n = normalized update_data in
      let (s, left) = get_or_create_user_settings user.id arrivals rows in
      let put =
        update_settings-ok user update_data arrivals rows
          (not_blank update_data markets times m t hm ht) in
      let read = get_settings-found user decrypt env_key later between (apply n s) (
        kept
        ∙ ap (λ r. find (is_settings_of user.id) r.1) put
        ∙ applied-find user n s left (get_or_create-find user.id arrivals rows)) in
      (
        ap (λ r. r.0) put
            ∙ ap ok (
                viewed update_data markets times m t hm ht [] [] all_markets two_times s
                ∙ sym read),
        ap (λ v. v.markets) read
            ∙ viewed-markets update_data markets times m t hm ht all_markets two_times s,
        ap (λ v. v.report_times) read
            ∙ viewed-times update_data markets times m t hm ht two_times all_markets s,
        ap (λ v. v.budget) read,
      )
