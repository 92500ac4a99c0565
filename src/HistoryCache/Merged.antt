-- ===== src/HistoryCache/Merged.antt =====
-- `merge_frames` of src/qte_shared/history_cache.py.
use quant_trading_engine.HistoryCache.{
  Frame, has_instant, insert_row, keep_last, merge_frames, sort_index,
}
use quant_trading_engine.Prelude.{
  All, Bool-cases, Key-Text, Key-pair, Key-ℕ, Option, Option-cases, [], ap, arith, false,
  if◌then◌else◌, inl, inr, is_some, ltb, nat_eq, nat_eq_sound, none, refl, some, subst, sym, true,
  ℕ, ◌++◌, ◌<◌, ◌∙◌, ◌∷◌, ◌≡◌,
}
use quant_trading_engine.SignalFactory.Intents.{first_some}
use quant_trading_engine.Timeframes.{Key-Timeframe}

module _ {ℓ} {V : Type ℓ} where
  -- The bar of an instant, the last where it stands twice.
  abbrev pub last_at : ℕ → Frame V → Option V
  last_at t [] = none
  last_at t ((u, w) ∷ frame) = first_some (last_at t frame) (if nat_eq u t then some w else none)

  abbrev pub UniqueInstants : Frame V → Type 0
  UniqueInstants [] = Unit
  UniqueInstants ((t, v) ∷ frame) = (has_instant t frame ≡ false) × UniqueInstants frame

  -- Strictly by time.
  abbrev pub Ascending : Frame V → Type ℓ
  Ascending [] = Unit
  Ascending ((t, v) ∷ frame) = All (λ (row : ℕ × V). t < row.0) frame × Ascending frame

  has_instant-last_at : (t : ℕ) (frame : Frame V) → has_instant t frame ≡ is_some (last_at t frame)
  has_instant-last_at t [] = refl
  has_instant-last_at t ((u, w) ∷ frame) =
      let rest = has_instant-last_at t frame in
      elim (Option-cases (last_at t frame)) [
        | inl gone ↦ elim (Bool-cases (nat_eq u t)) [
          | inl same ↦ rw (same, gone) refl
          | inr other ↦ rw (other, rest, gone) refl
        ]
        | inr (v, found) ↦ rw (rest, found) (ground arith)
      ]

  first_some-none : (o : Option V) → first_some o none ≡ o
  first_some-none none = refl
  first_some-none (some v) = refl

  absent_at : (t : ℕ) (frame : Frame V) → has_instant t frame ≡ false → last_at t frame ≡ none
  absent_at t frame gone =
      let it = sym (has_instant-last_at t frame) ∙ gone in
      elim (Option-cases (last_at t frame)) [
        | inl none_there ↦ none_there
        | inr (v, found) ↦ absurd (cc (rw found at it))
      ]

  last_at-append :
      (t : ℕ) (xs ys : Frame V) → last_at t (xs ++ ys) ≡ first_some (last_at t ys) (last_at t xs)
  last_at-append t [] ys = sym (first_some-none (last_at t ys))
  last_at-append t ((u, w) ∷ xs) ys =
      rw (last_at-append t xs ys)
        (first_some_assoc (last_at t ys) (last_at t xs) (if nat_eq u t then some w else none))
    where
      first_some_assoc :
          (a b c : Option V) → first_some (first_some a b) c ≡ first_some a (first_some b c)
      first_some_assoc none b c = refl
      first_some_assoc (some v) b c = refl

  keep_last-last_at : (t : ℕ) (frame : Frame V) → last_at t (keep_last frame) ≡ last_at t frame
  unfolding keep_last
  keep_last-last_at t [] = refl
  keep_last-last_at t ((u, w) ∷ frame) =
      let it = keep_last-last_at t frame in
      elim (Bool-cases (has_instant u frame)) [
        | inl again ↦ rw again (
            it ∙ (elim (Bool-cases (nat_eq u t)) [
              | inl same ↦
                  let at_t : has_instant t frame ≡ true =
                    subst (λ k. has_instant k frame ≡ true) (nat_eq_sound u t same) again in
                  kept (last_at t frame) (some w) (sym (has_instant-last_at t frame) ∙ at_t) same
              | inr other ↦ rw other (sym (first_some-none (last_at t frame)))
            ]))
        | inr once ↦ rw (once, it) refl
      ]
    where
      kept :
          (o p : Option V)
          → is_some o ≡ true
          → nat_eq u t ≡ true
          → o ≡ first_some o (if nat_eq u t then p else none)
      kept none p h k = absurd (cc h)
      kept (some v) p h k = refl

  keep_last-has : (t : ℕ) (frame : Frame V) → has_instant t (keep_last frame) ≡ has_instant t frame
  keep_last-has t frame =
      has_instant-last_at t (keep_last frame)
      ∙ ap is_some (keep_last-last_at t frame)
      ∙ sym (has_instant-last_at t frame)

  keep_last-UniqueInstants : (frame : Frame V) → UniqueInstants (keep_last frame)
  unfolding keep_last
  keep_last-UniqueInstants [] = tt
  keep_last-UniqueInstants ((t, v) ∷ frame) = elim (Bool-cases (has_instant t frame)) [
    | inl again ↦ rw again (keep_last-UniqueInstants frame)
    | inr once ↦ rw once (keep_last-has t frame ∙ once, keep_last-UniqueInstants frame)
  ]

  insert_row-last_at :
      (t u : ℕ) (v : V) (frame : Frame V)
      → has_instant u frame ≡ false
      → last_at t (insert_row u v frame) ≡ (if nat_eq u t then some v else last_at t frame)
  insert_row-last_at t u v [] fresh = refl
  insert_row-last_at t u v ((x, w) ∷ frame) fresh =
      let here = (if nat_eq x t then some w else none) in
      let later_fresh : has_instant u frame ≡ false = ground (arith, fresh) in
      let rest = insert_row-last_at t u v frame later_fresh in
      elim (Bool-cases (ltb u x)) [
        | inl before ↦ rw before (elim (Bool-cases (nat_eq u t)) [
          | inl same ↦
              let at_t : has_instant t ((x, w) ∷ frame) ≡ false =
                subst (λ k. has_instant k ((x, w) ∷ frame) ≡ false) (nat_eq_sound u t same) fresh in
              rw (absent_at t ((x, w) ∷ frame) at_t, same) refl
          | inr other ↦ rw other (first_some-none (last_at t ((x, w) ∷ frame)))
        ])
        | inr after ↦
            rw (after, rest)
              (elim (Bool-cases (nat_eq u t)) [
                | inl same ↦ rw same refl
                | inr other ↦ rw other refl
              ])
      ]

  All-insert_row :
      (P : ℕ × V → Type 0) (t : ℕ) (v : V) (frame : Frame V)
      → P (t, v)
      → All P frame
      → All P (insert_row t v frame)
  All-insert_row P t v [] h all = (h, tt)
  All-insert_row P t v ((u, w) ∷ frame) h all = elim (Bool-cases (ltb t u)) [
    | inl before ↦ rw before (h, all)
    | inr after ↦ rw after (all.0, All-insert_row P t v frame h all.1)
  ]

  insert_row-Ascending :
      (t : ℕ) (v : V) (frame : Frame V)
      → has_instant t frame ≡ false
      → Ascending frame
      → Ascending (insert_row t v frame)
  insert_row-Ascending t v [] fresh up = (tt, tt)
  insert_row-Ascending t v ((u, w) ∷ frame) fresh up = elim (Bool-cases (ltb t u)) [
    | inl before ↦
        let t_u : t < u = ground (arith, before) in rw before ((t_u, above t u t_u frame up.0), up)
    | inr after ↦
        let later_fresh : has_instant t frame ≡ false = ground (arith, fresh) in
        let u_t : u < t = ground (arith, after, fresh) in
        rw after (
          All-insert_row (λ (row : ℕ × V). u < row.0) t v frame u_t up.0,
          insert_row-Ascending t v frame later_fresh up.1,
        )
  ]
    where
      above :
          (a b : ℕ)
          → a < b
          → (rows : Frame V) → All (λ (row : ℕ × V). b < row.0) rows
          → All (λ (row : ℕ × V). a < row.0) rows
      above a b lower [] all = tt
      above a b lower (row ∷ rows) all = (omega (arith, lower, all.0), above a b lower rows all.1)

  sort_index-last_at :
      (t : ℕ) (frame : Frame V)
      → UniqueInstants frame
      → last_at t (sort_index frame) ≡ last_at t frame
  unfolding sort_index
  sort_index-last_at t [] unique = refl
  sort_index-last_at t ((u, v) ∷ frame) (once, unique) =
      let sorted_frame = sort_index frame in
      let fresh =
        has_instant-last_at u sorted_frame
        ∙ ap is_some (sort_index-last_at u frame unique)
        ∙ sym (has_instant-last_at u frame)
        ∙ once in
      insert_row-last_at t u v sorted_frame fresh ∙ (elim (Bool-cases (nat_eq u t)) [
        | inl same ↦
            let at_t : has_instant t frame ≡ false =
              subst (λ k. has_instant k frame ≡ false) (nat_eq_sound u t same) once in
            rw (absent_at t frame at_t, same) refl
        | inr other ↦
            rw (sort_index-last_at t frame unique, other) (sym (first_some-none (last_at t frame)))
      ])

  sort_index-Ascending : (frame : Frame V) → UniqueInstants frame → Ascending (sort_index frame)
  unfolding sort_index
  sort_index-Ascending [] unique = tt
  sort_index-Ascending ((u, v) ∷ frame) (once, unique) =
      let fresh =
        has_instant-last_at u (sort_index frame)
        ∙ ap is_some (sort_index-last_at u frame unique)
        ∙ sym (has_instant-last_at u frame)
        ∙ once in
      insert_row-Ascending u v (sort_index frame) fresh (sort_index-Ascending frame unique)

  abbrev pub IsMerged : Frame V → Frame V → Frame V → Type ℓ
  IsMerged existing incoming merged =
      Ascending merged
      × ((t : ℕ) → last_at t merged ≡ first_some (last_at t incoming) (last_at t existing))

  -- Merging two frames in which no instant stands twice gives one that is strictly ordered by time
  -- and holds at each instant the incoming bar, or else the existing one: nothing on disk is lost,
  -- and what is newer wins.
  pub merge_frames-IsMerged :
      (existing incoming : Frame V)
      → UniqueInstants existing
      → UniqueInstants incoming
      → IsMerged existing incoming (merge_frames existing incoming)
  unfolding merge_frames
  merge_frames-IsMerged [] incoming once once' = (
    sort_index-Ascending incoming once',
    λ t. sort_index-last_at t incoming once' ∙ sym (first_some-none (last_at t incoming)),
  )
  merge_frames-IsMerged (row ∷ existing) [] once once' =
      (sort_index-Ascending (row ∷ existing) once, λ t. sort_index-last_at t (row ∷ existing) once)
  merge_frames-IsMerged (row ∷ existing) (next ∷ incoming) once once' =
      let both = (row ∷ existing) ++ next ∷ incoming in
      let unique = keep_last-UniqueInstants both in
      (
        sort_index-Ascending (keep_last both) unique,
        λ t.
            sort_index-last_at t (keep_last both) unique
            ∙ keep_last-last_at t both
            ∙ last_at-append t (row ∷ existing) (next ∷ incoming),
      )
