-- ===== src/Pipeline/Folders.antt =====
-- Laws of the folder of packs of src/dsvire/pipeline.py, and what the actions leave alone.
use tokito_dsvire.Prelude.{
  ℕ, ◌≤◌, true, Option, none, some, [], ◌∷◌, ◌++◌, ◌≡◌, ◌≢◌, refl, sym, ap, ◌∙◌, arith, inl, inr,
  if◌then◌else◌, Bool-cases, same_text, same_text-eq, same_text_refl, length, codes,
}
use tokito_dsvire.Pipeline.Chars.{Text}
use tokito_dsvire.Pipeline.Bundles.{Pack}
use tokito_dsvire.Pipeline.Actions.{
  Root, is_named, pack_at, remove_pack, put_pack, move_pack, PackNames, names_of,
}

same_text-both : (a b c : Text) → same_text a b ≡ true → same_text a c ≡ true → b ≡ c
same_text-both a b c h k = sym (same_text-eq a b h) ∙ same_text-eq a c k

pub pack_at-remove_pack : (name : Text) (root : Root) → pack_at name (remove_pack name root) ≡ none
unfolding pack_at remove_pack
pack_at-remove_pack name [] = refl
pack_at-remove_pack name (e ∷ es) = elim (Bool-cases (is_named name e)) [
  | inl t ↦ rw t (pack_at-remove_pack name es)
  | inr t ↦ rw (t, t) (pack_at-remove_pack name es)
]

pub pack_at-remove_other :
    (name other : Text) (root : Root)
    → name ≢ other
    → pack_at name (remove_pack other root) ≡ pack_at name root
unfolding pack_at remove_pack
pack_at-remove_other name other [] ne = refl
pack_at-remove_other name other (e ∷ es) ne =
    let rest = pack_at-remove_other name other es ne in
    elim (Bool-cases (is_named other e)) [
      | inr t ↦ rw t (ap (λ p. if is_named name e then some e.pack else p) rest)
      | inl t ↦ elim (Bool-cases (is_named name e)) [
        | inl s ↦ absurd (ne (same_text-both e.name name other s t))
        | inr s ↦ rw (t, s) rest
      ]
    ]

pub pack_at-put_pack :
    (name : Text) (pack : Pack) (root : Root)
    → pack_at name (put_pack name (some pack) root) ≡ some pack
unfolding pack_at put_pack
pack_at-put_pack name pack root = rw (same_text_refl name) refl

pub pack_at-put_other :
    (name other : Text) (pack : Option Pack) (root : Root)
    → name ≢ other
    → pack_at name (put_pack other pack root) ≡ pack_at name root
unfolding pack_at put_pack
pack_at-put_other name other none root ne = refl
pack_at-put_other name other (some pack) root ne = elim (Bool-cases (same_text other name)) [
  | inl t ↦ absurd (ne (same_text-both other name other t (same_text_refl other)))
  | inr t ↦ rw t (pack_at-remove_other name other root ne)
]

pub pack_at-move_other :
    (name source target : Text) (root : Root)
    → name ≢ source
    → name ≢ target
    → pack_at name (move_pack source target root) ≡ pack_at name root
unfolding move_pack
pack_at-move_other name source target root a b =
    pack_at-put_other name target (pack_at source root) (remove_pack source root) b
    ∙ pack_at-remove_other name source root a

pub pack_at-moved :
    (source target : Text) (pack : Pack) (root : Root)
    → pack_at source root ≡ some pack
    → pack_at target (move_pack source target root) ≡ some pack
unfolding move_pack
pack_at-moved source target pack root h =
    rw h (pack_at-put_pack target pack (remove_pack source root))

pub pack_at-left :
    (source target : Text) (root : Root)
    → source ≢ target
    → pack_at source (move_pack source target root) ≡ none
unfolding move_pack
pack_at-left source target root ne =
    pack_at-put_other source target (pack_at source root) (remove_pack source root) ne
    ∙ pack_at-remove_pack source root

-- The three folders of a call are different ones.
pub record Apart (n : PackNames) : Type 0 where
  pub published_staged : n.pack_dir ≢ n.staging
  pub published_aside : n.pack_dir ≢ n.corrupt
  pub staged_aside : n.staging ≢ n.corrupt

same_tail : (a b c : Text) → a ++ b ≡ a ++ c → b ≡ c
same_tail [] b c h = h
same_tail (x ∷ xs) b c h = same_tail xs b c (ground (arith, h))

length-append_le : (a b : Text) → length a ≤ length (a ++ b)
length-append_le [] b = omega arith
length-append_le (x ∷ xs) b = omega (arith, length-append_le xs b)

longer : (a b : Text) (c : ℕ) → a ≢ c ∷ (a ++ b)
longer a b c h = omega (arith, ap length h, length-append_le a b)

pub names_of-Apart : (pack_id fresh : Text) → Apart (names_of pack_id fresh)
names_of-Apart pack_id fresh = record {
  published_staged = longer pack_id (b'-' ∷ fresh) b'.';
  published_aside = longer pack_id (codes ".corrupt") b'.';
  staged_aside = λ h.
      let t : pack_id ++ (b'-' ∷ fresh) ≡ pack_id ++ codes ".corrupt" = ground (arith, h) in
      let k : b'-' ∷ fresh ≡ codes ".corrupt" = same_tail pack_id _ _ t in ground (arith, k);
}
