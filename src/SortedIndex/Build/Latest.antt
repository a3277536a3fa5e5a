-- ===== src/SortedIndex/Build/Latest.antt =====
-- The last entry of a key in the order of the scan is the one that a merge chooses.
use in_memory_db.Base.{
  ℕ, zero, suc, ◌+◌, ◌%◌, ◌^◌, ◌≤◌, ◌<◌, ◌≡◌, refl, ap, sym, ◌∙◌, List, [], ◌∷◌, ◌++◌, length, true,
  false, Bool-cases, ◌==◌, if◌then◌else◌, Option, Option-cases, none, some, ◌⊎◌, inl, inr, arith,
  bytes_equal, bytes_equal_iff,
}
use in_memory_db.FileIndex.{KeyFunc, read_line, line_key}
use in_memory_db.SortedIndex.Format.Entries.{SortEntry}
use in_memory_db.SortedIndex.Merge.{better_dup}
use in_memory_db.SortedIndex.Merge.Pending.{In}
use in_memory_db.SortedIndex.Merge.Winners.{Chosen}
use in_memory_db.SortedIndex.Lookup.Floor.{In-append}
use in_memory_db.SortedIndex.Lookup.Scan.{find_key, find_key-In}
use in_memory_db.SortedIndex.Build.Spill.{line_entry, entries_in, all_entries}

-- Every entry beats those in front of it.
abbrev pub Ordered : List SortEntry → Type 0
Ordered [] = Unit
Ordered (e ∷ es) = ((z : SortEntry) → In z es → better_dup z e ≡ true) × Ordered es

Ordered-append :
    (xs ys : List SortEntry)
    → Ordered xs
    → Ordered ys
    → ((x y : SortEntry) → In x xs → In y ys → better_dup y x ≡ true)
    → Ordered (xs ++ ys)
Ordered-append [] ys ox oy across = oy
Ordered-append (x ∷ xs) ys ox oy across = (
  λ z m. elim (In-append z xs ys m) [
    | inl left ↦ ox.0 z left
    | inr right ↦ across x z (inl refl) right
  ],
  Ordered-append xs ys ox.1 oy (λ a b m k. across a b (inr m) k),
)

line_entry_lem :
    (key_func : KeyFunc) (file_idx : ℕ) (line : List ℕ) (off : ℕ) (z : SortEntry)
    → In z (line_entry key_func file_idx line off)
    → (z.file_idx ≡ file_idx) × (z.src_off ≡ off)
unfolding line_entry
line_entry_lem key_func file_idx line off z m = elim (Bool-cases (length line == 0)) [
  | inl blank ↦ absurd (rw blank at m)
  | inr text ↦ elim (Option-cases (line_key key_func line)) [
    | inl skipped ↦ absurd (rw (text, skipped) at m)
    | inr (key, keyed) ↦ elim (rw (text, keyed) at m) [
      | inl eq ↦ (ap (λ (e : SortEntry). e.file_idx) eq, ap (λ (e : SortEntry). e.src_off) eq)
      | inr gone ↦ absurd gone
    ]
  ]
]

line_entry-Ordered :
    (key_func : KeyFunc) (file_idx : ℕ) (line : List ℕ) (off : ℕ)
    → Ordered (line_entry key_func file_idx line off)
unfolding line_entry
line_entry-Ordered key_func file_idx line off = elim (Bool-cases (length line == 0)) [
  | inl blank ↦ rw blank tt
  | inr text ↦ elim (Option-cases (line_key key_func line)) [
    | inl skipped ↦ rw (text, skipped) tt
    | inr (key, keyed) ↦ rw (text, keyed) (λ z m. absurd m, tt)
  ]
]

entries_in_lem :
    (key_func : KeyFunc) (fuel file_idx : ℕ) (bs : List ℕ) (off : ℕ) (z : SortEntry)
    → In z (entries_in key_func fuel file_idx bs off)
    → (z.file_idx ≡ file_idx) × (off ≤ z.src_off)
unfolding entries_in
entries_in_lem key_func zero file_idx bs off z m = absurd m
entries_in_lem key_func (suc fuel) file_idx bs off z m =
    elim (In-append z (line_entry key_func file_idx (read_line bs).0 off) _ m) [
      | inl here ↦
          let (same, place) = line_entry_lem key_func file_idx (read_line bs).0 off z here in
          (same, omega arith)
      | inr later ↦ elim (Bool-cases (read_line bs).1) [
        | inl more ↦
            let (same, place) =
              entries_in_lem key_func fuel file_idx (read_line bs).2
                (off + length (read_line bs).0 + 1) z (rw more at later) in
            (same, omega arith)
        | inr last ↦ absurd (rw last at later)
      ]
    ]

beats_later :
    (x y : SortEntry) → x.file_idx ≡ y.file_idx → x.src_off < y.src_off → better_dup y x ≡ true
unfolding better_dup
beats_later x y same lt = ground arith

entries_in-Ordered :
    (key_func : KeyFunc) (fuel file_idx : ℕ) (bs : List ℕ) (off : ℕ)
    → Ordered (entries_in key_func fuel file_idx bs off)
unfolding entries_in
entries_in-Ordered key_func zero file_idx bs off = tt
entries_in-Ordered key_func (suc fuel) file_idx bs off =
    let line = (read_line bs).0 in
    let rest = entries_in key_func fuel file_idx (read_line bs).2 (off + length line + 1) in
    let first = line_entry-Ordered key_func file_idx line off in
    elim (Bool-cases (read_line bs).1) [
      | inl more ↦ rw more (
          Ordered-append (line_entry key_func file_idx line off) rest first
            (entries_in-Ordered key_func fuel file_idx (read_line bs).2 (off + length line + 1))
            (λ x y m k.
              let (fx, px) = line_entry_lem key_func file_idx line off x m in
              let (fy, py) =
                entries_in_lem key_func fuel file_idx (read_line bs).2 (off + length line + 1) y
                  k in
              beats_later x y (fx ∙ sym fy) (omega arith)))
      | inr last ↦
          rw last (
            Ordered-append (line_entry key_func file_idx line off) [] first tt
              (λ x y m k. absurd k))
    ]

all_entries_lem :
    (key_func : KeyFunc) (contents : List (List ℕ)) (base : ℕ) (z : SortEntry)
    → base + length contents ≤ 2 ^ 16
    → In z (all_entries key_func base contents)
    → base ≤ z.file_idx
unfolding all_entries
all_entries_lem key_func [] base z small m = absurd m
all_entries_lem key_func (c ∷ contents) base z small m =
    elim (In-append z (entries_in key_func (length c + 1) (base % 2 ^ 16) c 0) _ m) [
      | inl here ↦
          let (same, place) = entries_in_lem key_func (length c + 1) (base % 2 ^ 16) c 0 z here in
          omega arith
      | inr later ↦
          let le = all_entries_lem key_func contents (base + 1) z (omega arith) later in omega arith
    ]

beats_file : (x y : SortEntry) → x.file_idx < y.file_idx → better_dup y x ≡ true
unfolding better_dup
beats_file x y lt = ground arith

pub all_entries-Ordered :
    (key_func : KeyFunc) (contents : List (List ℕ)) (base : ℕ)
    → base + length contents ≤ 2 ^ 16
    → Ordered (all_entries key_func base contents)
unfolding all_entries
all_entries-Ordered key_func [] base small = tt
all_entries-Ordered key_func (c ∷ contents) base small =
    Ordered-append (entries_in key_func (length c + 1) (base % 2 ^ 16) c 0)
      (all_entries key_func (base + 1) contents)
      (entries_in-Ordered key_func (length c + 1) (base % 2 ^ 16) c 0)
      (all_entries-Ordered key_func contents (base + 1) (omega arith))
      (λ x y m k.
        let (fx, px) = entries_in_lem key_func (length c + 1) (base % 2 ^ 16) c 0 x m in
        let le = all_entries_lem key_func contents (base + 1) y (omega arith) k in
        beats_file x y (omega arith))

-- The last entry of a key.
unfoldable pub last_with : List SortEntry → List ℕ → Option SortEntry
last_with [] key = none
last_with (e ∷ es) key = elim (last_with es key) [
  | some z ↦ some z
  | none ↦ if bytes_equal e.key key then some e else none
]

last_with-none :
    (es : List SortEntry) (key : List ℕ) (z : SortEntry)
    → last_with es key ≡ none
    → In z es
    → bytes_equal z.key key ≡ false
unfolding last_with
last_with-none [] key z h m = absurd m
last_with-none (e ∷ es) key z h m = elim (Option-cases (last_with es key)) [
  | inr (v, later) ↦ absurd (let h' = rw later at h in cc)
  | inl gone ↦ elim (Bool-cases (bytes_equal e.key key)) [
    | inl same ↦ absurd (let h' = rw (gone, same) at h in cc)
    | inr other ↦ elim m [ inl is_e ↦ rw is_e other | inr m' ↦ last_with-none es key z gone m' ]
  ]
]

last_with-some :
    (es : List SortEntry) (key : List ℕ) (e : SortEntry)
    → Ordered es
    → last_with es key ≡ some e
    → In e es
      × (e.key ≡ key)
      × ((z : SortEntry) → In z es → z.key ≡ key → (z ≡ e) ⊎ (better_dup e z ≡ true))
unfolding last_with
last_with-some [] key e o h = absurd (cc)
last_with-some (x ∷ es) key e o h = elim (Option-cases (last_with es key)) [
  | inr (v, later) ↦
      let h' = rw later at h in
      let v_e : v ≡ e = cc in
      let (m, same, best) = last_with-some es key e o.1 (rw v_e at later) in
      (inr m, same, λ z k eq. elim k [ inl is_x ↦ inr (rw is_x (o.0 e m)) | inr k' ↦ best z k' eq ])
  | inl gone ↦ elim (Bool-cases (bytes_equal x.key key)) [
    | inr other ↦ absurd (let h' = rw (gone, other) at h in cc)
    | inl same ↦
        let h' = rw (gone, same) at h in
        let x_e : x ≡ e = cc in
        (
          inl (sym x_e),
          rw (sym x_e) ((bytes_equal_iff x.key key).0 same),
          λ z k eq. elim k [
            | inl is_x ↦ inl (is_x ∙ x_e)
            | inr k' ↦
                let differs = last_with-none es key z gone k' in
                let equal = (bytes_equal_iff z.key key).1 eq in absurd (cc)
          ],
        )
  ]
]

find_key_hit :
    (ws : List SortEntry) (key : List ℕ) (w : SortEntry)
    → In w ws
    → w.key ≡ key
    → (v : SortEntry) × (find_key ws key ≡ some v)
unfolding find_key
find_key_hit [] key w m eq = absurd m
find_key_hit (e ∷ ws) key w m eq = elim (Bool-cases (bytes_equal e.key key)) [
  | inl same ↦ (e, rw same refl)
  | inr other ↦ elim m [
    | inl is_e ↦ absurd (
        let equal = (bytes_equal_iff e.key key).1 (ap (λ (x : SortEntry). x.key) (sym is_e) ∙ eq) in
        cc)
    | inr m' ↦ let (v, hit) = find_key_hit ws key w m' eq in (v, rw other hit)
  ]
]

-- A lookup among the chosen entries finds the last one of the key.
pub find_key-last_with :
    (ws es : List SortEntry) (key : List ℕ)
    → Chosen ws (λ z. In z es)
    → Ordered es
    → find_key ws key ≡ last_with es key
find_key-last_with ws es key c o = elim (Option-cases (last_with es key)) [
  | inl gone ↦ elim (Option-cases (find_key ws key)) [
    | inl missing ↦ missing ∙ sym gone
    | inr (w, hit) ↦
        let (m, same) = find_key-In ws key w hit in
        let differs = last_with-none es key w gone (c.sound w m) in
        let equal = (bytes_equal_iff w.key key).1 same in absurd (cc)
  ]
  | inr (e, last) ↦
      let (m, same, best) = last_with-some es key e o last in
      let (w, k, w_e) = c.complete e m in
      let (v, hit) = find_key_hit ws key w k (w_e ∙ same) in
      let (kv, v_key) = find_key-In ws key v hit in
      elim (best v (c.sound v kv) v_key) [
        | inl is_e ↦ hit ∙ (ap (λ t. some t) is_e ∙ sym last)
        | inr beaten ↦ let unbeaten = c.best v e kv m (same ∙ sym v_key) in absurd (cc)
      ]
]
