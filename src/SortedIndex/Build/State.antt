-- ===== src/SortedIndex/Build/State.antt =====
-- The files of an index that is up to date with its sources, and what a lookup in them returns.
use in_memory_db.Base.{
  err, empty_key, if◌then◌else◌, ◌==◌, ℕ, ◌+◌, ◌^◌, ◌≤◌, ◌<◌, ◌≡◌, refl, ap, ◌∙◌, List, [], ◌∷◌,
  foldl, map, max, length, false, Bool-cases, Option, none, some, ok, ◌⊎◌, inl, inr, arith,
}
use in_memory_db.Bytes.Reader.{write_many, All}
use in_memory_db.SortedIndex.Bloom.{new_bloom_filter, add}
use in_memory_db.SortedIndex.Format.BloomFile.{BloomFilter, read_bloom_file}
use in_memory_db.SortedIndex.Format.Entries.{SortEntry, Fits, write_sidx_entry}
use in_memory_db.SortedIndex.Format.Sidx.{header_len, assemble_sidx}
use in_memory_db.SortedIndex.Format.Sources.{SourceStat, StatFits, write_sources_file}
use in_memory_db.SortedIndex.Format.Sparse.{write_sparse_file}
use in_memory_db.SortedIndex.Merge.Pending.{In}
use in_memory_db.SortedIndex.Merge.Winners.{Chosen}
use in_memory_db.SortedIndex.Merge.Files.{sample, files_of, filter_of}
use in_memory_db.SortedIndex.Lookup.{
  SortedIndex, Files, open_sources, open_sorted_index, ruled_out, get,
}
use in_memory_db.SortedIndex.Lookup.Scan.{Passes, get_empty, get-find_key, found_line}
use in_memory_db.SortedIndex.Lookup.Open.{open-Serves, filter_of-Passes}
use in_memory_db.SortedIndex.Build.{
  SourceFile, BuildEnv, SortedIndexOptions, stat_sources, new_filter, replace_files, content_of,
}
use in_memory_db.SortedIndex.Build.Spill.{Stands, all_entries}
use in_memory_db.SortedIndex.Build.Latest.{find_key-last_with, all_entries-Ordered}
use in_memory_db.SortedIndex.Build.Room.{choice_room}
use in_memory_db.SortedIndex.Build.Lines.{all_lines, last_line}
use in_memory_db.SortedIndex.Build.LineAnswers.{line_or_missing, last_line-answer}

module _ (env : BuildEnv) where
  -- A path, a size and a modification time that the source list can hold.
  abbrev pub SourceFits : List ℕ → Type 0
  SourceFits p =
      (length p < 2 ^ 16)
      × ((f : SourceFile)
          → env.source_file p ≡ some f
          → (length f.content < 2 ^ 64) × (f.mod_time < 2 ^ 64))

  -- The files on disk that source records are of.
  abbrev pub Described : List SourceStat → List (List ℕ) → Type 0
  Described [] [] = Unit
  Described [] (c ∷ contents) = ⊥
  Described (s ∷ stats) [] = ⊥
  Described (s ∷ stats) (c ∷ contents) =
      ((f : SourceFile) × (env.source_file s.path ≡ some f)
        × (f.content ≡ c)
        × (s.size ≡ length c)
        × (s.mod_time ≡ f.mod_time))
      × Described stats contents

  pub stat_sources-Stands :
      (paths contents : List (List ℕ))
      → Stands env paths contents
      → All SourceFits paths
      → (stats : List SourceStat) × (stat_sources env paths ≡ ok stats)
        × All StatFits stats
        × (length stats ≡ length paths)
        × (open_sources (content_of env) stats ≡ ok contents)
        × Described stats contents
  unfolding stat_sources open_sources content_of
  stat_sources-Stands [] [] stands fits = ([], refl, tt, refl, refl, tt)
  stat_sources-Stands [] (c ∷ contents) stands fits = absurd stands
  stat_sources-Stands (p ∷ paths) [] stands fits = absurd stands
  stat_sources-Stands (p ∷ paths) (c ∷ contents) ((f, found, same), stands) ((named, sized), fits) =
      let (stats, run_, ok_, size, opened, described) =
        stat_sources-Stands paths contents stands fits in
      let (bytes, time) = sized f found in
      (
        record { path = p; size = length f.content; mod_time = f.mod_time } ∷ stats,
        rw (found, stat_sources, run_) refl,
        ((named, bytes, time), ok_),
        omega arith,
        rw (found, open_sources, opened, same) refl,
        ((f, found, same, ap (λ t. length t) same, refl), described),
      )

  pub length-Stands :
      (paths contents : List (List ℕ)) → Stands env paths contents → length paths ≡ length contents
  length-Stands [] [] s = refl
  length-Stands [] (c ∷ contents) s = absurd s
  length-Stands (p ∷ paths) [] s = absurd s
  length-Stands (p ∷ paths) (c ∷ contents) s = omega (arith, length-Stands paths contents s.1)

  -- The sizes that the formulas give for so many keys.
  abbrev pub Sized : ℕ → Type 0
  Sized n =
      (env.bits_for (max n 1) < 2 ^ 63)
      × (env.probes_for (max (env.bits_for (max n 1)) 8) (max n 1) < 2 ^ 64)

  -- The entries of the sources fit their widths, and so does a file of them all.
  pub record Fitting (contents : List (List ℕ)) : Type 0 where
    pub entries : (z : SortEntry) → In z (all_entries env.key_func 0 contents) → Fits z
    pub room :
        header_len + length (write_many write_sidx_entry (all_entries env.key_func 0 contents))
        < 2 ^ 64

  pub Fitting-room :
      (contents : List (List ℕ)) (ws : List SortEntry)
      → Fitting contents
      → Chosen ws (λ z. In z (all_entries env.key_func 0 contents))
      → header_len + length (write_many write_sidx_entry ws) < 2 ^ 64
  Fitting-room contents ws fitting c =
      let room = fitting.room in
      omega (arith, choice_room ws (all_entries env.key_func 0 contents) c.ascending c.sound)

  -- The filter that the new files hold, unless one of an earlier build is left behind.
  pub filter_lem :
      (ws : List SortEntry) (n interval : ℕ) (stats : List SourceStat) (files : Files)
      (o : SortedIndexOptions)
      → Sized n
      → (o.no_bloom ≡ false) ⊎ (files.bloom_file ≡ none)
      → let m = files_of env.merge interval (new_filter env o n) ws in
        (b : Option BloomFilter) × (read_bloom_file (replace_files env files m stats).bloom_file
          ≡ ok b)
        × Passes env.merge.fnv64a env.merge.crc64 b ws
  unfolding new_filter replace_files files_of filter_of read_bloom_file ruled_out
  filter_lem ws n interval stats files o sized clean = elim (Bool-cases o.no_bloom) [
    | inr wanted ↦
        let (read, pass) =
          filter_of-Passes env.merge env.bits_for env.probes_for n ws sized.0 sized.1 in
        let filter =
          foldl (add env.merge.fnv64a env.merge.crc64)
            (new_bloom_filter env.bits_for env.probes_for n) (map (λ (w : SortEntry). w.key) ws) in
        (some filter, rw wanted read, pass)
    | inl unwanted ↦ elim clean [
      | inl wanted ↦ absurd (cc)
      | inr no_file ↦ (none, rw (unwanted, no_file) refl, λ e m. refl)
    ]
  ]

  -- The four files hold the entries chosen from the contents, for the recorded sources.
  pub record Current (files : Files) (stats : List SourceStat) (contents : List (List ℕ))
      : Type 0 where
    pub interval : ℕ
    pub ws : List SortEntry
    pub filter : Option BloomFilter
    pub sources : files.sources_file ≡ some (write_sources_file stats)
    pub stats_fit : All StatFits stats
    pub few : length stats ≤ 65535
    pub sidx : files.sidx_file ≡ some (assemble_sidx (length ws) (write_many write_sidx_entry ws))
    pub sparse : files.sparse_file ≡ some (write_sparse_file (sample interval 0 0 ws))
    pub bloom : read_bloom_file files.bloom_file ≡ ok filter
    pub passes : Passes env.merge.fnv64a env.merge.crc64 filter ws
    pub chosen : Chosen ws (λ z. In z (all_entries env.key_func 0 contents))
    pub fits : All Fits ws
    pub room : header_len + length (write_many write_sidx_entry ws) < 2 ^ 64

  -- What an open index answers: an error for the empty key, and else the last line of the key, in the
  -- order of the sources and their lines.
  abbrev pub Answers : SortedIndex → List (List ℕ) → Type 0
  Answers si contents =
      (key : List ℕ)
      → get env.merge.fnv64a env.merge.crc64 si key ≡ (
          if length key == 0
          then err empty_key
          else line_or_missing (last_line env.key_func (all_lines contents) key))

  -- Files that are up to date open, and the index answers with the last line of a key.
  pub Current-open :
      (files : Files) (stats : List SourceStat) (contents : List (List ℕ))
      → Current files stats contents
      → open_sources (content_of env) stats ≡ ok contents
      → length contents ≤ 65535
      → ((line : List ℕ) → In line (all_lines contents) → length line < 2 ^ 31)
      → (si : SortedIndex) × (open_sorted_index (content_of env) files ≡ ok si)
        × Answers si contents
  Current-open files stats contents c opened few short =
      let many = c.few in
      let ordered = all_entries-Ordered env.key_func contents 0 (omega arith) in
      let (si, run_, serves, bloom, srcs, not_closed) =
        open-Serves (content_of env) files stats contents c.interval c.ws c.filter opened
          (omega arith) c.stats_fit c.sources c.sidx c.sparse c.bloom c.chosen.ascending c.fits
          c.room in
      (
        si,
        run_,
        λ key. elim (Bool-cases (length key == 0)) [
          | inl blank ↦ rw (get_empty env.merge.fnv64a env.merge.crc64 si key blank, blank) refl
          | inr named ↦ rw named (
              get-find_key env.merge.fnv64a env.merge.crc64 c.interval c.ws si key serves
                (rw bloom c.passes) not_closed (λ e. ground arith)
              ∙ (ap (found_line si) (
                    find_key-last_with c.ws (all_entries env.key_func 0 contents) key c.chosen
                      ordered)
                  ∙ last_line-answer env.key_func si contents key srcs few short))
        ],
      )
