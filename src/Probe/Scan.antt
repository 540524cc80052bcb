-- ===== src/Probe/Scan.antt =====
-- A scan that stops early has seen what the whole body holds.
use yu_clash.Prelude.{
  ℕ, zero, suc, ◌-◌, ◌≡◌, refl, sym, ◌∙◌, ap, subst, Bool, true, false, none, some, List, [], ◌∷◌,
  ◌++◌, append_assoc, append-nil, take, drop, length, if◌then◌else◌, Option-cases, inl, inr, arith,
}
use yu_clash.Text.{Text, contains, after, cut_prefix}
use yu_clash.Probe.{scan_overlap, scan_chunks, read_all, read_probe_body}

take-drop : (k : ℕ) (s : Text) → take k s ++ drop k s ≡ s
take-drop zero s = refl
take-drop (suc k) [] = refl
take-drop (suc k) (c ∷ s) = ap (λ t. c ∷ t) (take-drop k s)

module _ (until : Text → Bool) (stays_left : (s t : Text) → until t ≡ true → until (s ++ t) ≡ true)
    (stays_right : (s t : Text) → until s ≡ true → until (s ++ t) ≡ true) where
  either_way :
      (b : Bool) (x y z : Text)
      → (b ≡ true → until x ≡ until z)
      → until y ≡ until z
      → until (if b then x else y) ≡ until z
  either_way true x y z h g = h refl
  either_way false x y z h g = g

  seen_whole :
      (k : ℕ) (held rest whole : Text)
      → held ++ rest ≡ whole
      → until (drop k held) ≡ true
      → until held ≡ until whole
  seen_whole k held rest whole e t =
      let seen : until held ≡ true =
        subst (λ x. until x ≡ true) (take-drop k held) (stays_left (take k held) (drop k held) t) in
      seen ∙ sym (subst (λ x. until x ≡ true) e (stays_right held rest seen))

  scan_chunks-agrees :
      (chunks : List Text) (buffer : Text)
      → until (scan_chunks until chunks buffer) ≡ until (buffer ++ read_all chunks)
  unfolding scan_chunks read_all
  scan_chunks-agrees [] buffer = ap until (sym (append-nil buffer))
  scan_chunks-agrees ([] ∷ chunks) buffer = scan_chunks-agrees chunks buffer
  scan_chunks-agrees ((c ∷ s) ∷ chunks) buffer =
      let k : ℕ = length buffer - scan_overlap in
      let whole = append_assoc buffer (c ∷ s) (read_all chunks) in
      either_way (until (drop k (buffer ++ c ∷ s))) (buffer ++ c ∷ s)
        (scan_chunks until chunks (buffer ++ c ∷ s)) (buffer ++ c ∷ (s ++ read_all chunks))
        (seen_whole k (buffer ++ c ∷ s) (read_all chunks) (buffer ++ c ∷ (s ++ read_all chunks))
          whole)
        (scan_chunks-agrees chunks (buffer ++ c ∷ s) ∙ ap until whole)

cut_prefix-append :
    (p s t r : Text) → cut_prefix p s ≡ some r → cut_prefix p (s ++ t) ≡ some (r ++ t)
unfolding cut_prefix
cut_prefix-append [] s t r e = ground (arith, e)
cut_prefix-append (a ∷ p) [] t r e = ground (arith, e)
cut_prefix-append (a ∷ p) (b ∷ s) t r e = ground (arith, e, cut_prefix-append p s t r)

contains-nothing : (t : Text) → contains t [] ≡ true
unfolding after cut_prefix
contains-nothing [] = refl
contains-nothing (c ∷ t) = refl

after-append : (m s t : Text) → contains s m ≡ true → contains (s ++ t) m ≡ true
unfolding after cut_prefix
after-append [] s t e = contains-nothing (s ++ t)
after-append (a ∷ p) [] t e = ground (arith, e)
after-append (a ∷ p) (c ∷ s) t e =
    let m : Text = a ∷ p in
    elim (Option-cases (cut_prefix m (c ∷ s))) [
      | inl n ↦ ground (arith, n, e, after-append m s t)
      | inr (r, f) ↦ ground (arith, cut_prefix-append m (c ∷ s) t r f)
    ]

after-prepend : (m s t : Text) → contains t m ≡ true → contains (s ++ t) m ≡ true
unfolding after
after-prepend m [] t e = e
after-prepend m (c ∷ s) t e = ground (arith, after-prepend m s t e)

-- A scan that stops at a marker loses none: for any division of the body into chunks, the marker is in what the scan
-- returns exactly when it is in the whole body.
pub scan_finds_marker :
    (marker : Text) (chunks : List Text)
    → contains (read_probe_body (some (λ tail. contains tail marker)) chunks) marker
      ≡ contains (read_probe_body none chunks) marker
unfolding read_probe_body
scan_finds_marker marker chunks =
    scan_chunks-agrees (λ tail. contains tail marker) (after-prepend marker) (after-append marker)
      chunks []
