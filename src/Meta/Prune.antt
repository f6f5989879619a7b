-- ===== src/Meta/Prune.antt =====
-- `pruneGone` of meta.go: the torrents that a reload did not see are gone from both maps.
use mathlib.Core.Option.{none-ne-some}
use samogon.Base.{
  eq_ne, Bool, Text, ◌==◌, Map, lookup, erase, lookup-erase, ◌≡◌, refl, sym, ap, ◌∙◌, [], ◌∷◌, none,
  some, Option-cases, Bool-cases, inl, inr, arith, true,
}
use samogon.Meta.{TorrentMeta, Meta, prune_loop, prune_gone}
use samogon.Storage.Client.{S3}

erased_none :
    {V : Type 0} → (k j : Text) (m : Map V) → lookup k m ≡ none → lookup k (erase j m) ≡ none
erased_none k j m e = elim (Bool-cases (k == j)) [
  | inl here ↦ rw (lookup-erase k j m, here)
  | inr there ↦ rw (lookup-erase k j m, there) e
]

erased_here :
    {V : Type 0} → (k j : Text) (m : Map V) → (k == j) ≡ true → lookup k (erase j m) ≡ none
erased_here k j m here = rw (lookup-erase k j m, here)

-- A torrent that was seen stays.
prune_loop_seen :
    (seen : Map Bool) (ih : Text) (b : Bool) (rest by_hash by_name : Map TorrentMeta)
    → lookup ih seen ≡ some b
    → lookup ih (prune_loop seen rest (by_hash, by_name)).0 ≡ lookup ih by_hash
unfolding prune_loop
prune_loop_seen seen ih b [] by_hash by_name e = refl
prune_loop_seen seen ih b ((j, tm) ∷ rest) by_hash by_name e = elim (Option-cases (lookup j seen)) [
  | inr (c, there) ↦ rw (there, prune_loop) (prune_loop_seen seen ih b rest by_hash by_name e)
  | inl gone ↦
      rw (gone, prune_loop)
        (prune_loop_seen seen ih b rest (erase j by_hash) (erase tm.display_name by_name) e
          ∙ rw (
            lookup-erase ih j by_hash,
            eq_ne ih j
                (λ p. none-ne-some b (sym gone ∙ (sym (ap (λ (k : Text). lookup k seen) p) ∙ e))),
          ))
]

-- What is gone stays gone.
prune_loop-none :
    (seen : Map Bool) (ih : Text) (rest by_hash by_name : Map TorrentMeta)
    → lookup ih by_hash ≡ none
    → lookup ih (prune_loop seen rest (by_hash, by_name)).0 ≡ none
unfolding prune_loop
prune_loop-none seen ih [] by_hash by_name e = e
prune_loop-none seen ih ((j, tm) ∷ rest) by_hash by_name e = elim (Option-cases (lookup j seen)) [
  | inr (c, there) ↦ rw (there, prune_loop) (prune_loop-none seen ih rest by_hash by_name e)
  | inl gone ↦
      rw (gone, prune_loop)
        (prune_loop-none seen ih rest (erase j by_hash) (erase tm.display_name by_name)
          (erased_none ih j by_hash e))
]

-- A torrent that was not seen goes when the loop comes to it.
prune_loop_unseen :
    (seen : Map Bool) (ih : Text) (t : TorrentMeta) (rest by_hash by_name : Map TorrentMeta)
    → lookup ih seen ≡ none
    → lookup ih rest ≡ some t
    → lookup ih (prune_loop seen rest (by_hash, by_name)).0 ≡ none
unfolding prune_loop lookup
prune_loop_unseen seen ih t [] by_hash by_name e is = absurd (none-ne-some t is)
prune_loop_unseen seen ih t ((j, tm) ∷ rest) by_hash by_name e is = elim (Bool-cases (ih == j)) [
  | inl here ↦
      let same : ih ≡ j = ground arith in
      let gone : lookup j seen ≡ none = sym (ap (λ (k : Text). lookup k seen) same) ∙ e in
      rw (gone, prune_loop)
        (prune_loop-none seen ih rest (erase j by_hash) (erase tm.display_name by_name)
          (erased_here ih j by_hash here))
  | inr there ↦
      let later : lookup ih rest ≡ some t = rw there at is in
      elim (Option-cases (lookup j seen)) [
        | inr (c, stays) ↦
            rw (stays, prune_loop) (prune_loop_unseen seen ih t rest by_hash by_name e later)
        | inl gone ↦
            rw (gone, prune_loop)
              (prune_loop_unseen seen ih t rest (erase j by_hash) (erase tm.display_name by_name) e
                later)
      ]
]

-- After `pruneGone` a torrent is found by its infohash exactly if it was before and was seen, and then
-- it is the same.
pub prune_gone-lookup :
    {S : S3} (seen : Map Bool) (m : Meta S) (ih : Text)
    → lookup ih (prune_gone seen m).by_hash
      ≡ elim (lookup ih seen) [ none ↦ none | some _ ↦ lookup ih m.by_hash ]
unfolding prune_gone
prune_gone-lookup seen m ih = elim (Option-cases (lookup ih seen)) [
  | inr (b, is) ↦ rw is (prune_loop_seen seen ih b m.by_hash m.by_hash m.by_name is)
  | inl gone ↦ rw gone (elim (Option-cases (lookup ih m.by_hash)) [
    | inl out ↦ prune_loop-none seen ih m.by_hash m.by_hash m.by_name out
    | inr (t, here) ↦ prune_loop_unseen seen ih t m.by_hash m.by_hash m.by_name gone here
  ])
]
