-- ===== src/Detection/Signatures.antt =====
-- When a signature is found in a content.
use guardian_pi.Base.{
  ℕ, String, ◌≡◌, refl, ◌↔◌, ◌≢◌, Bool, true, false, List, [], ◌∷◌, ◌++◌, arith, if◌then◌else◌, All,
  ap, ◌⊎◌, inl, inr, Bool-cases,
}
use guardian_pi.Detection.{starts, occurs, scan_file_content}
use guardian_pi.Detection.Rules.{Signature, yara_signatures}
use guardian_pi.Detection.Matching.{differs}

occurs-backslash :
    (pattern content : List ℕ)
    → All (λ c. c ≢ b'\\') content
    → occurs (b'\\' ∷ pattern) content ≡ false
unfolding occurs
occurs-backslash pattern [] h = refl
occurs-backslash pattern (c ∷ cs) h = ground (arith, occurs-backslash pattern cs)

scan_file_content-All :
    (name : String) (content : List ℕ) (filename : String) (sigs : List Signature)
    → All (λ s. (occurs s.pattern content ≡ false) ⊎ (s.name ≢ name)) sigs
    → All (λ m. m.signature ≢ name) (scan_file_content sigs content filename)
unfolding scan_file_content
scan_file_content-All name content filename [] h = tt
scan_file_content-All name content filename (s ∷ ss) (c, cs) =
    choose (occurs s.pattern content) c (scan_file_content-All name content filename ss cs)
  where
    choose :
        (b : Bool)
        → (b ≡ false) ⊎ (s.name ≢ name)
        → All (λ m. m.signature ≢ name) (scan_file_content ss content filename)
        → All
            (λ m. m.signature ≢ name)
            (if b
              then record { signature = s.name; severity = s.severity; file = filename }
                ∷ scan_file_content ss content filename
              else scan_file_content ss content filename)
    choose true (inl absent) t = absurd (cc)
    choose true (inr other) t = (other, t)
    choose false _ t = t

starts-append : (pattern rest : List ℕ) → starts pattern (pattern ++ rest) ≡ true
unfolding starts
starts-append [] rest = refl
starts-append (p ∷ ps) rest = ground (arith, starts-append ps rest)

starts-split :
    (pattern content : List ℕ)
    → starts pattern content ≡ true
    → (rest : List ℕ) × (content ≡ pattern ++ rest)
unfolding starts
starts-split [] content h = (content, refl)
starts-split (p ∷ ps) [] h = absurd (cc)
starts-split (p ∷ ps) (c ∷ cs) h =
    let (rest, e) = starts-split ps cs (ground arith) in
    let same : p ≡ c = ground arith in (rest, cc)

occurs-append :
    (before pattern after : List ℕ) → occurs pattern (before ++ (pattern ++ after)) ≡ true
unfolding occurs
occurs-append [] pattern after = here pattern (pattern ++ after) (starts-append pattern after)
  where
    here :
        (pattern content : List ℕ) → starts pattern content ≡ true → occurs pattern content ≡ true
    here pattern [] h = h
    here pattern (c ∷ cs) h = ground arith
occurs-append (b ∷ bs) pattern after = ground (arith, occurs-append bs pattern after)

occurs-split :
    (pattern content : List ℕ)
    → occurs pattern content ≡ true
    → (before : List ℕ) × (after : List ℕ) × (content ≡ before ++ (pattern ++ after))
unfolding occurs
occurs-split pattern [] h = let (rest, e) = starts-split pattern [] h in ([], rest, e)
occurs-split pattern (c ∷ cs) h = elim (Bool-cases (starts pattern (c ∷ cs))) [
  | inl now ↦ let (rest, e) = starts-split pattern (c ∷ cs) now in ([], rest, e)
  | inr later ↦
      let (before, after, e) = occurs-split pattern cs (ground arith) in
      (c ∷ before, after, ap (◌∷◌ c) e)
]

-- The test by which a signature is found says exactly that its pattern is a contiguous part of the
-- content.
pub occurs_iff :
    (pattern content : List ℕ)
    → (occurs pattern content ≡ true)
      ↔ ((before : List ℕ) × (after : List ℕ) × (content ≡ before ++ (pattern ++ after)))
occurs_iff pattern content =
    (occurs-split pattern content, λ (b, a, e). rw e (occurs-append b pattern a))

-- A content without a backslash is never reported for the signature of shellcode: the pattern is a
-- raw literal, which looks for the text of the escapes and not for the bytes that they stand for.
pub scan_file_content-ne-shellcode :
    (content : List ℕ) (filename : String)
    → All (λ c. c ≢ b'\\') content
    → All
        (λ m. m.signature ≢ "suspicious_shellcode")
        (scan_file_content yara_signatures content filename)
scan_file_content-ne-shellcode content filename h =
    scan_file_content-All "suspicious_shellcode" content filename yara_signatures (
      inl (occurs-backslash _ content h),
      (
        inr (differs _ _ refl),
        (inr (differs _ _ refl), (inr (differs _ _ refl), (inr (differs _ _ refl), tt))),
      ),
    )
