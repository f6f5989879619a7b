-- ===== src/Config/Keys.antt =====
-- The keys of config.go: what is stored under one name is read under that name and no other.
use mathlib.Core.Option.{some-injective}
use mathlib.Core.List.{tail-eq_of_cons-eq, append_assoc}
use samogon.Base.{
  Text, bytes, ℕ, ◌≡◌, ◌≢◌, refl, sym, ap, ◌∙◌, true, false, List, [], ◌∷◌, ◌++◌, All, get_elem?,
  eqb, arith, Bool-cases, inl, inr, eq_ne,
}
use samogon.Config.{Config, key_torrent, key_piece, prefix_torrents}
use samogon.Strings.{slash, base, trim_right, split_slash, last, has_prefix}

abbrev pub NoSlash : Text → Type 0
NoSlash = All (λ c. eqb c slash ≡ false)

append_cancel : (a b c : Text) → a ++ b ≡ a ++ c → b ≡ c
append_cancel [] b c e = e
append_cancel (x ∷ a) b c e = append_cancel a b c (tail-eq_of_cons-eq e)

pub key_piece_injective : (cfg : Config) (g h : Text) → key_piece cfg g ≡ key_piece cfg h → g ≡ h
unfolding key_piece
key_piece_injective cfg g h e =
    append_cancel (bytes "/pieces/") g h (append_cancel cfg.s3_root _ _ e)

pub key_torrent_injective :
    (cfg : Config) (g h : Text) → key_torrent cfg g ≡ key_torrent cfg h → g ≡ h
unfolding key_torrent
key_torrent_injective cfg g h e =
    append_cancel (bytes "/torrents/") g h (append_cancel cfg.s3_root _ _ e)

has_prefix-append : (p s : Text) → has_prefix (p ++ s) p ≡ true
unfolding has_prefix
has_prefix-append [] s = refl
has_prefix-append (c ∷ p) s =
    let same : eqb c c ≡ true = ground arith in rw (same, has_prefix-append p s)

-- A listing of the torrents has the key of every torrent.
pub has_prefix-key_torrent :
    (cfg : Config) (t : Text) → has_prefix (key_torrent cfg t) (prefix_torrents cfg) ≡ true
unfolding key_torrent prefix_torrents
has_prefix-key_torrent cfg t =
    ap (λ (k : Text). has_prefix k (cfg.s3_root ++ bytes "/torrents/"))
      (sym (append_assoc cfg.s3_root (bytes "/torrents/") t))
    ∙ has_prefix-append (cfg.s3_root ++ bytes "/torrents/") t

-- No torrent is stored under the key of a piece.
pub key_torrent-ne-key_piece : (cfg : Config) (t h : Text) → key_torrent cfg t ≢ key_piece cfg h
unfolding key_torrent key_piece
key_torrent-ne-key_piece cfg t h e =
    let e' = append_cancel cfg.s3_root (bytes "/torrents/" ++ t) (bytes "/pieces/" ++ h) e in
    absurd (omega (arith, some-injective _ _ (ap (λ (s : Text). get_elem? s 1) e')))

cons-ne-nil : (c : ℕ) (s : Text) → ◌≢◌ {A = Text} (c ∷ s) []
cons-ne-nil c s e = cc

append-ne-nil : (s h : Text) → h ≢ [] → s ++ h ≢ []
append-ne-nil [] h n = n
append-ne-nil (c ∷ s) h n = cons-ne-nil c (s ++ h)

trim_right_cons : (c : ℕ) (t : Text) → trim_right t ≡ t → t ≢ [] → trim_right (c ∷ t) ≡ c ∷ t
unfolding trim_right
trim_right_cons c [] e n = absurd (n refl)
trim_right_cons c (d ∷ t) e n = rw (e, trim_right)

trim_right_id : (s h : Text) → NoSlash h → h ≢ [] → trim_right (s ++ h) ≡ s ++ h
unfolding trim_right
trim_right_id [] [] p n = refl
trim_right_id [] (c ∷ []) p n = rw p.0
trim_right_id [] (c ∷ d ∷ h) p n =
    trim_right_cons c (d ∷ h) (trim_right_id [] (d ∷ h) p.1 (cons-ne-nil d h)) (cons-ne-nil d h)
trim_right_id (c ∷ s) h p n =
    trim_right_cons c (s ++ h) (trim_right_id s h p n) (append-ne-nil s h n)

split_slash_id : (h : Text) → NoSlash h → split_slash h ≡ h ∷ []
unfolding split_slash
split_slash_id [] p = refl
split_slash_id (c ∷ h) p = rw (split_slash_id h p.1, p.0, split_slash)

split_slash-last :
    (s h : Text)
    → NoSlash h
    → (p q : Text) × (ps : List Text) × (split_slash (s ++ (slash ∷ h)) ≡ p ∷ q ∷ ps)
      × (last (q ∷ ps) ≡ h)
unfolding split_slash
split_slash-last [] h n = ([], h, [], rw (split_slash_id h n, split_slash), refl)
split_slash-last (c ∷ s) h n =
    let (p, q, ps, e, l) = split_slash-last s h n in
    elim (Bool-cases (eqb c slash)) [
      | inl here ↦ ([], p, q ∷ ps, rw (e, here, split_slash), l)
      | inr there ↦ (c ∷ p, q, ps, rw (e, there, split_slash), l)
    ]

trim_right-append_slash :
    (s h : Text) → NoSlash h → h ≢ [] → trim_right (s ++ (slash ∷ h)) ≡ s ++ (slash ∷ h)
trim_right-append_slash s h p n =
    let e = append_assoc s (slash ∷ []) h in
    sym (ap trim_right e) ∙ (trim_right_id (s ++ (slash ∷ [])) h p n ∙ e)

base_leaf : (s h : Text) → s ≢ [] → h ≢ [] → last (split_slash (trim_right s)) ≡ h → base s ≡ h
unfolding base
base_leaf s h sn hn e = rw (e, eq_ne s [] sn, eq_ne h [] hn)

-- The leaf of a path that ends in a name: `path.Base` gives the name.
base-append : (s h : Text) → NoSlash h → h ≢ [] → base (s ++ (slash ∷ h)) ≡ h
base-append s h n ne =
    let (p, q, ps, e, l) = split_slash-last s h n in
    base_leaf (s ++ (slash ∷ h)) h (append-ne-nil s (slash ∷ h) (cons-ne-nil slash h)) ne
      (ap (λ (t : Text). last (split_slash t)) (trim_right-append_slash s h n ne) ∙ (ap last e ∙ l))

pub trim_right-key_torrent :
    (cfg : Config) (h : Text)
    → NoSlash h
    → h ≢ []
    → trim_right (key_torrent cfg h) ≡ key_torrent cfg h
unfolding key_torrent
trim_right-key_torrent cfg h n ne =
    let e = append_assoc cfg.s3_root (bytes "/torrents") (slash ∷ h) in
    sym (ap trim_right e) ∙ (trim_right-append_slash (cfg.s3_root ++ bytes "/torrents") h n ne ∙ e)

-- For a name that is not empty and has no slash, `path.Base` of the key of the piece of that name is
-- the name again, so that `ListPieces` and the collector find it in a listing; the same for torrents.
pub base-key :
    (cfg : Config) (h : Text)
    → NoSlash h
    → h ≢ []
    → (base (key_piece cfg h) ≡ h) × (base (key_torrent cfg h) ≡ h)
unfolding key_piece key_torrent
base-key cfg h n ne = (
  sym (ap base (append_assoc cfg.s3_root (bytes "/pieces") (slash ∷ h)))
      ∙ base-append (cfg.s3_root ++ bytes "/pieces") h n ne,
  sym (ap base (append_assoc cfg.s3_root (bytes "/torrents") (slash ∷ h)))
      ∙ base-append (cfg.s3_root ++ bytes "/torrents") h n ne,
)
