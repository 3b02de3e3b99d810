-- ===== src/Controlsync/Activity/Rows.antt =====
-- Which rows internal/controlsync/activity_writer.go posts.
use safeswitch_router.Common.{
  ℕ, ◌+◌, ◌≡◌, refl, ap, ◌∙◌, Bool, true, not, ◌&&◌, none, some, List, [], ◌∷◌, arith, Bytes,
  length, same, same_iff, any, ◌==◌, if◌then◌else◌, Bool-cases, inl, inr,
}
use safeswitch_router.Common.Text.{to_lower}
use safeswitch_router.Dns.Resolver.{BlockEvent}
use safeswitch_router.Controlsync.Activity.{ActivityLogRow, Seen, is_seen, row_for, rows_of, flush}

-- The address that the row names, empty if it names none.
abbrev pub ip_of_row : ActivityLogRow → Bytes
ip_of_row row = elim row.metadata_src_ip [ none ↦ [] | some ip ↦ ip ]

abbrev pub is_row_for : Bytes → Bytes → ActivityLogRow → Bool
is_row_for domain src_ip row = same row.domain_blocked domain && same (ip_of_row row) src_ip

abbrev pub count : {A : Type 0} → (A → Bool) → List A → ℕ
count p [] = 0
count p (x ∷ xs) = if p x then count p xs + 1 else count p xs

pub is_empty : {A : Type 0} → (s : List A) → (length s == 0) ≡ true → s ≡ []
is_empty [] h = refl
is_empty (c ∷ s) h = absurd (ground (arith, h))

module _ (unicode_lower : Bytes → Bytes) (family_id domain src_ip : Bytes) where
  abbrev pub is_about : BlockEvent → Bool
  is_about evt = same (to_lower unicode_lower evt.domain) domain && same evt.src_ip src_ip

  ip_of_row-row_for :
      (evt : BlockEvent) → ip_of_row (row_for unicode_lower family_id evt) ≡ evt.src_ip
  unfolding row_for
  ip_of_row-row_for evt = elim (Bool-cases (length evt.src_ip == 0)) [
    | inl e ↦ ground (arith, e, is_empty evt.src_ip e)
    | inr e ↦ ground (arith, e)
  ]

  is_row_for-row_for :
      (evt : BlockEvent)
      → is_row_for domain src_ip (row_for unicode_lower family_id evt) ≡ is_about evt
  unfolding row_for
  is_row_for-row_for evt = ground (arith, ap (λ x. same x src_ip) (ip_of_row-row_for evt))

  count-rows_of :
      (seen : Seen) (batch : List BlockEvent)
      → count (is_row_for domain src_ip) (rows_of unicode_lower family_id seen batch) ≡ (
          if not (length domain == 0) && not (is_seen domain src_ip seen) && any is_about batch
          then 1
          else 0)
  unfolding rows_of
  count-rows_of seen [] = ground arith
  count-rows_of seen (evt ∷ batch) =
      let d = to_lower unicode_lower evt.domain in
      let skipped = count-rows_of seen batch in
      let rest = count-rows_of ((d, evt.src_ip) ∷ seen) batch in
      let row = is_row_for-row_for evt in
      elim (Bool-cases (is_about evt)) [
        | inl e ↦
            let m : d ≡ domain = ground (arith, e, same_iff d domain) in
            let n : evt.src_ip ≡ src_ip = ground (arith, e, same_iff evt.src_ip src_ip) in
            let known : is_seen d evt.src_ip seen ≡ is_seen domain src_ip seen =
              ap (λ x. is_seen x evt.src_ip seen) m ∙ ap (λ x. is_seen domain x seen) n in
            let sized : (length d == 0) ≡ (length domain == 0) = ap (λ x. length x == 0) m in
            ground (arith, e, known, sized, skipped, rest, row)
        | inr e ↦ ground (arith, e, skipped, rest, row)
      ]

  -- Of a batch that is flushed for a family there is one row for each name and address together
  -- that an event has, and none for any other: one for the given ones if they are an event's and the
  -- name is not empty, and none if not.
  pub count-flush :
      (batch : List BlockEvent)
      → count
          (is_row_for domain src_ip)
          (elim (flush unicode_lower family_id batch) [ none ↦ [] | some rows ↦ rows ])
        ≡ (if not (length family_id == 0) && not (length domain == 0) && any is_about batch
            then 1
            else 0)
  unfolding flush
  count-flush batch =
      let rows = rows_of unicode_lower family_id [] batch in
      let counted = count-rows_of [] batch in
      elim (Bool-cases (length rows == 0)) [
        | inl e ↦
            ground
              (arith, e, counted, ap (λ x. count (is_row_for domain src_ip) x) (is_empty rows e))
        | inr e ↦ ground (arith, e, counted)
      ]
