-- ===== src/Controlsync/Nrd/Requests.antt =====
-- The cloud's table of newly-registered domains as internal/controlsync/nrdsync.go asks for it: a
-- record of two requests, of which the laws say what PostgREST documents.
use safeswitch_router.Common.{
  ℕ, ◌+◌, ◌-◌, ◌≡◌, Bool, true, false, not, Option, none, some, List, [], ◌∷◌, Bytes, bytes, length,
  drop, leb, ltb, same, ◌==◌, if◌then◌else◌,
}
use safeswitch_router.Common.Dict.{is_some}
use safeswitch_router.Common.Text.{index}

abbrev pub nrd_source_tag : Bytes
nrd_source_tag = bytes "cenk_nrd_30d"

-- A row of the cloud's table as it is sent.
pub record NrdRow : Type 0 where
  pub domain : Bytes
  pub source : Bytes
  pub first_seen_at : ℕ
  pub last_seen_at : ℕ

unfoldable pub nrd_row : ℕ → Bytes → NrdRow
nrd_row ts d = record { domain = d; source = nrd_source_tag; first_seen_at = ts; last_seen_at = ts }

-- The cloud's table. A request returns the state behind and the status, `none` for an error; the
-- deletion returns the header `Content-Range` too.
pub record Cloud : Type 1 where
  pub State : Type 0
  pub post_rows : List NrdRow → State → State × Option ℕ
  pub delete_before : ℕ → State → State × Option (ℕ × Bytes)
  pub last_seen : State → Bytes → Option ℕ

abbrev pub is_accepted : Option ℕ → Bool
is_accepted none = false
is_accepted (some status) = not (leb 300 status)

abbrev pub pruned_rows : Option (ℕ × Bytes) → Option Bytes
pruned_rows none = none
pruned_rows (some (status, range)) = if leb 300 status then none else some range

-- The time that the rows give a domain, the last one's.
abbrev pub seen_in : Bytes → List NrdRow → Option ℕ → Option ℕ
seen_in d [] old = old
seen_in d (r ∷ rows) old = seen_in d rows (if same r.domain d then some r.last_seen_at else old)

abbrev pub not_before : ℕ → Option ℕ → Option ℕ
not_before ts none = none
not_before ts (some t) = if ltb t ts then none else some t

-- An accepted upsert merges its rows by domain, and an accepted deletion drops the rows before a time.
pub record IsLawful (C : Cloud) : Type 0 where
  pub last_seen-post :
      (rows : List NrdRow) (s : C.State) (d : Bytes)
      → is_accepted (C.post_rows rows s).1 ≡ true
      → C.last_seen (C.post_rows rows s).0 d ≡ seen_in d rows (C.last_seen s d)
  pub last_seen-delete :
      (ts : ℕ) (s : C.State) (d : Bytes)
      → is_some (pruned_rows (C.delete_before ts s).1) ≡ true
      → C.last_seen (C.delete_before ts s).0 d ≡ not_before ts (C.last_seen s d)

-- The count behind the slash of `Content-Range`.
unfoldable pub pruned_count : (Bytes → Option ℕ) → Bytes → ℕ
pruned_count scan_int range = elim (index b'/' range) [
  | none ↦ 0
  | some slash ↦
      if slash == length range - 1
      then 0
      else elim (scan_int (drop (slash + 1) range)) [ none ↦ 0 | some n ↦ n ]
]
