-- ===== src/Tests/Repacks.antt =====
-- A repack of a torrent of two pieces, with an injective function in place of SHA-1.
use mathlib.Core.List.{head-eq_of_cons-eq}
use mathlib.Core.Option.{some-injective, none-ne-some}
use samogon.Base.{
  Text, Bytes, bytes, ◌==◌, text_dec, Map, lookup, ℕ, zero, suc, ◌+◌, ◌≡◌, ◌≢◌, refl, sym, ap, ◌∙◌,
  ◌⊎◌, inl, inr, true, Bool-cases, List, [], ◌∷◌, ◌++◌, replicate, map, length, length-append, All,
  none, if◌then◌else◌, Option, some, arith, eqb,
}
use samogon.Config.{key_piece, key_torrent}
use samogon.Config.Keys.{key_piece_injective, key_torrent-ne-key_piece}
use samogon.File.Alone.{alone}
use samogon.Meta.{TorrentMeta, build_meta, v1_hashes, file_entries, sanitize_name}
use samogon.Meta.Parsed.{Info}
use samogon.Repack.{all_hex, is_hex}
use samogon.Gc.{Schedule, started, run_gc}
use samogon.Repack.Collected.{info_of, run_repack-run_gc}
use samogon.Repack.Cut.{IsCut-unique}
use samogon.Repack.Loop.{IsCut}
use samogon.Repack.Commit.{IsRepacked, IsPublished, run_repack-IsRepacked}
use samogon.Repack.Job.{run_repack}
use samogon.Repack.Upload.{hex, key_of, check, store}
use samogon.Repack.Stream.{joined, Bodies}
use samogon.Repack.Target.{extract_infohash-key_torrent}
use samogon.Storage.{Storage}
use samogon.Storage.Laws.{at}
use samogon.Strings.{trim, trim_left, trim_right}
use samogon.Throw.{Ensures, ◌>>=◌, on_state}
use samogon.Tests.Bucket.{memory, memory-IsLawful, memory-IsReliable}
use samogon.Tests.Fixture.{config}

-- Each byte as so many ones and a zero.
unfoldable spell : Bytes → Bytes
spell [] = []
spell (n ∷ c) = replicate n 1 ++ (0 ∷ spell c)

unfoldable unspell : ℕ → Text → Bytes
unspell n [] = []
unspell n (a ∷ []) = []
unspell n (a ∷ b ∷ s) =
    let next = unspell 0 s in let more = unspell (suc n) s in if eqb b b'1' then more else n ∷ next

unspell_ones :
    (n k m : ℕ) (rest : Bytes)
    → n + k ≡ m
    → unspell k (hex (replicate n 1 ++ rest)) ≡ unspell m (hex rest)
unfolding unspell hex
unspell_ones zero k m rest e = ap (λ (i : ℕ). unspell i (hex rest)) (omega (arith, e))
unspell_ones (suc n) k m rest e = unspell_ones n (suc k) m rest (omega (arith, e))

unspell-spell : (c : Bytes) → unspell 0 (hex (spell c)) ≡ c
unfolding unspell hex spell
unspell-spell [] = refl
unspell-spell (n ∷ c) =
    unspell_ones n 0 n (0 ∷ spell c) (omega arith) ∙ ap (◌∷◌ n) (unspell-spell c)

abbrev hash : Text
hash = bytes "5e3e284f5e3e284f5e3e284f5e3e284f5e3e28c7"

abbrev first : Text
first = bytes "010001010100"

abbrev second : Text
second = bytes "0101010100"

abbrev objects : Map Bytes
objects =
    (key_torrent config hash, 7 ∷ [])
    ∷ (key_piece config first, 1 ∷ 3 ∷ [])
    ∷ (key_piece config second, 4 ∷ [])
    ∷ []

abbrev storage : Storage memory
storage = record { s3 = objects; puts = 0 }

abbrev contents : List Bytes
contents = (1 ∷ 3 ∷ []) ∷ (4 ∷ []) ∷ []

abbrev parsed : Info
parsed = record {
  name = bytes "n";
  piece_length = 2;
  length = 3;
  total_length = 3;
  files = [];
  pieces = some first ∷ some second ∷ [];
}

abbrev built : TorrentMeta
built = record {
  infohash = hash;
  name = bytes "n";
  display_name = [];
  piece_len = 2;
  total_len = 3;
  files = record { path = bytes "n"; size = 3; offset = 0 } ∷ [];
  piece_hashes = first ∷ second ∷ [];
}

builds : build_meta parsed hash ≡ some built
unfolding build_meta v1_hashes file_entries sanitize_name trim trim_left trim_right text_dec
builds = refl

lookup-cons_cases :
    (k j : Text) (v b : Bytes) (m : Map Bytes)
    → lookup k ((j, v) ∷ m) ≡ some b
    → ((k ≡ j) × (v ≡ b)) ⊎ (lookup k m ≡ some b)
unfolding lookup
lookup-cons_cases k j v b m e = elim (Bool-cases (k == j)) [
  | inl here ↦ inl (ground arith, ground arith)
  | inr there ↦ inr (rw there at e)
]

held :
    (h : Text) (b : Bytes)
    → at memory-IsLawful storage (key_piece config h) ≡ some b
    → unspell 0 h ≡ b
unfolding unspell lookup
held h b e =
    elim (lookup-cons_cases (key_piece config h) (key_torrent config hash) (7 ∷ []) b
      ((key_piece config first, 1 ∷ 3 ∷ []) ∷ (key_piece config second, 4 ∷ []) ∷ []) e) [
        | inl (k, _) ↦ absurd (key_torrent-ne-key_piece config hash h (sym k))
        | inr e1 ↦
            elim (lookup-cons_cases (key_piece config h) (key_piece config first) (1 ∷ 3 ∷ []) b
              ((key_piece config second, 4 ∷ []) ∷ []) e1) [
                | inl (k, v) ↦ ap (unspell 0) (key_piece_injective config h first k) ∙ v
                | inr e2 ↦
                    elim (lookup-cons_cases (key_piece config h) (key_piece config second) (4 ∷ [])
                      b [] e2) [
                        | inl (k, v) ↦ ap (unspell 0) (key_piece_injective config h second k) ∙ v
                        | inr e3 ↦ absurd (none-ne-some b e3)
                      ]
              ]
      ]

stored :
    (at memory-IsLawful storage (key_torrent config hash) ≡ some (7 ∷ []))
    × Bodies config (at memory-IsLawful storage) (first ∷ second ∷ []) contents
unfolding lookup text_dec key_piece key_torrent
stored = (refl, (refl, (refl, tt)))

hash_hex : all_hex hash ≡ true
unfolding all_hex is_hex
hash_hex = refl

-- A .torrent that begins with another byte, under another infohash.
abbrev rebuild : Bytes → ℕ → Bytes → Option (Bytes × Text)
rebuild raw size named = some (8 ∷ named, bytes "new")

heads : hash ≢ bytes "new"
heads x = absurd (omega (arith, head-eq_of_cons-eq x))

other : (named r : Bytes) (n : Text) → rebuild (7 ∷ []) 2 named ≡ some (r, n) → hash ≢ n
other named r n e x =
    heads
      (x ∙ sym (ap (λ (w : Bytes × Text). w.1) (some-injective (8 ∷ named, bytes "new") (r, n) e)))

run_repack-IsRepacked_example :
    Ensures
      (λ st'.
        ((j : Text)
          → at memory-IsLawful st' (key_torrent config j)
            ≡ at memory-IsLawful storage (key_torrent config j))
        ⊎ IsPublished memory-IsLawful spell config rebuild 2 (7 ∷ []) contents storage st')
      (λ _ st'.
        IsRepacked memory-IsLawful spell config rebuild 2 hash
          (7 ∷ [])
          (first ∷ second ∷ [])
          contents
          st')
      (run_repack spell config
        (λ _. some (parsed, hash))
        rebuild
        4
        (λ _. check 0 ∷ [])
        (λ _. store 1)
        (λ _ _ _. alone)
        2
        (key_torrent config hash)
        storage)
run_repack-IsRepacked_example =
    run_repack-IsRepacked memory-IsLawful spell config (λ _. some (parsed, hash)) rebuild 2
      (omega arith) hash (7 ∷ []) (first ∷ second ∷ []) contents (unspell 0)
      (λ a c z e. unspell-spell c) storage 4 (λ _. check 0 ∷ []) (λ _. store 1) (λ _ _ _. alone)
      (key_torrent config hash) parsed built
      (extract_infohash-key_torrent config hash hash_hex (omega arith)) stored.0 refl builds refl
      held stored.1 (omega arith)

spell-ne-nil : (c : Bytes) → c ≢ [] → spell c ≢ []
unfolding spell
spell-ne-nil [] ne e = absurd (ne refl)
spell-ne-nil (n ∷ c) ne e =
    absurd (omega (arith, ap length e, length-append (replicate n 1) (0 ∷ spell c)))

-- The .torrent that `rebuild` writes, parsed again.
abbrev parsed_again : Info
parsed_again = record {
  name = bytes "n";
  piece_length = 2;
  length = 3;
  total_length = 3;
  files = [];
  pieces = map (λ c. some (hex (spell c))) contents;
}

abbrev parse : Bytes → Option (Info × Text)
parse [] = none
parse (b ∷ rest) = if eqb b 7 then some (parsed, hash) else some (parsed_again, bytes "new")

contents-IsCut : IsCut 2 (joined contents) contents
contents-IsCut = record {
  wholes = (1 ∷ 3 ∷ []) ∷ [];
  last = 4 ∷ [];
  parts = refl;
  sizes = (omega arith, tt);
  shorter = omega arith;
  covers = refl;
}

reads :
    (cs : List Bytes) (r : Bytes) (n : Text)
    → IsCut 2 (joined contents) cs
    → rebuild (7 ∷ []) 2 (joined (map spell cs)) ≡ some (r, n)
    → (i : Info) × (parse r ≡ some (i, n)) × (i.pieces ≡ map (λ c. some (hex (spell c))) cs)
reads cs r n cut e =
    let both = some-injective (8 ∷ joined (map spell cs), bytes "new") (r, n) e in
    let body : 8 ∷ joined (map spell cs) ≡ r = ap (λ (w : Bytes × Text). w.0) both in
    let name : bytes "new" ≡ n = ap (λ (w : Bytes × Text). w.1) both in
    (
      parsed_again,
      ap parse (sym body) ∙ ap (λ (x : Text). some (parsed_again, x)) name,
      ap (map (λ (c : Bytes). some (hex (spell c))))
          (IsCut-unique 2 (joined contents) contents cs contents-IsCut cut),
    )

abbrev collecting : Schedule
collecting = record { marks = λ n. 0 ∷ []; deletes = λ n. 1 ∷ (0 ∷ []); last = []; dies = 0 }

run_repack-run_gc_example :
    Ensures
      (λ _. Unit {0})
      (λ _ w.
        (chunks : List Bytes) × IsCut 2 (joined contents) chunks
        × All (λ c. at memory-IsLawful w.store (key_of spell config c) ≡ some c) chunks)
      (on_state started (
          run_repack spell config parse rebuild 4
            (λ _. check 0 ∷ [])
            (λ _. store 1)
            (λ _ _ _. alone)
            2
            (key_torrent config hash)
            storage)
        >>= (λ (_, w). run_gc (info_of parse) collecting config w.store))
run_repack-run_gc_example =
    run_repack-run_gc memory-IsLawful memory-IsReliable spell spell-ne-nil config parse rebuild 2
      (omega arith) hash (7 ∷ []) (first ∷ second ∷ []) contents other reads collecting (unspell 0)
      (λ a c z e. unspell-spell c) storage 4 (λ _. check 0 ∷ []) (λ _. store 1) (λ _ _ _. alone)
      (key_torrent config hash) parsed built
      (extract_infohash-key_torrent config hash hash_hex (omega arith)) stored.0 refl builds refl
      held stored.1 (omega arith)
