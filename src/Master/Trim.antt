-- ===== src/Master/Trim.antt =====
-- sdi12_master.c: trim_crlf on a line that ends in CR and LF.
use libsdi.Base.{
  ℕ, zero, suc, Bool-cases, Option-cases, inl, inr, ◌+◌, ◌≡◌, ◌≢◌, refl, sym, ap, ◌∙◌, true, false,
  ◌||◌, List, [], ◌∷◌, ◌++◌, append_assoc, some, arith, length, length-append, drop, drop-append,
  get_or-append, ◌==◌,
}
use libsdi.Base.Buffer.{
  splice, byte_at, overwrite, length-overwrite, store, store_fits, store-eq-some,
}
use libsdi.Master.Parse.{trim_crlf}

-- A byte in the middle of an array.
byte_at_middle :
    (front rest : List ℕ) (x n : ℕ) → n ≡ length front → byte_at (front ++ x ∷ rest) n ≡ x
byte_at_middle front rest x n e = get_or-append n front (x ∷ rest) 0 0 (omega (arith, e))

overwrite_middle :
    (front rest : List ℕ) (x n : ℕ)
    → n ≡ length front
    → overwrite (front ++ x ∷ rest) n (0 ∷ []) ≡ front ++ 0 ∷ rest
overwrite_middle front rest x n e =
    splice front (x ∷ rest) (0 ∷ []) (front ++ x ∷ rest) n refl e
    ∙ ap (λ (t : List ℕ). front ++ 0 ∷ t)
        (ap (drop (n + 1)) (sym (append_assoc front (x ∷ []) rest))
          ∙ drop-append (n + 1) (front ++ x ∷ []) rest
              (omega (arith, length-append front (x ∷ []))))

trim_step :
    (front rest : List ℕ) (x n : ℕ)
    → n ≡ length front
    → ((x == 0x0D) || (x == 0x0A)) ≡ true
    → trim_crlf (front ++ x ∷ rest) (suc n) ≡ trim_crlf (front ++ 0 ∷ rest) n
unfolding trim_crlf
trim_step front rest x n e h =
    let written =
      store_fits (front ++ x ∷ rest) n (0 ∷ []) (omega (arith, length-append front (x ∷ rest))) in
    rw (byte_at_middle front rest x n e, h, written, overwrite_middle front rest x n e) refl

trim_stop :
    (front rest : List ℕ) (x n : ℕ)
    → n ≡ length front
    → ((x == 0x0D) || (x == 0x0A)) ≡ false
    → trim_crlf (front ++ x ∷ rest) (suc n) ≡ some (front ++ x ∷ rest, suc n)
unfolding trim_crlf
trim_stop front rest x n e h = rw (byte_at_middle front rest x n e, h) refl

-- A line whose last character is neither CR nor LF loses exactly its CR and LF.
pub trim_crlf_line :
    (front rest : List ℕ) (x n : ℕ)
    → n ≡ length front
    → x ≢ 0x0D
    → x ≢ 0x0A
    → trim_crlf (front ++ x ∷ 0x0D ∷ 0x0A ∷ rest) (suc (suc (suc n)))
      ≡ some (front ++ x ∷ 0 ∷ 0 ∷ rest, suc n)
trim_crlf_line front rest x n e cr lf =
    let two = x ∷ 0x0D ∷ [] in
    ap (λ t. trim_crlf t (suc (suc (suc n)))) (sym (append_assoc front two (0x0A ∷ rest)))
    ∙ trim_step (front ++ two) rest 0x0A (suc (suc n)) (omega (arith, length-append front two)) refl
    ∙ ap (λ t. trim_crlf t (suc (suc n)))
        (append_assoc front two (0 ∷ rest) ∙ sym (append_assoc front (x ∷ []) (0x0D ∷ 0 ∷ rest)))
    ∙ trim_step (front ++ x ∷ []) (0 ∷ rest) 0x0D (suc n)
        (omega (arith, length-append front (x ∷ []))) refl
    ∙ ap (λ t. trim_crlf t (suc n)) (append_assoc front (x ∷ []) (0 ∷ 0 ∷ rest))
    ∙ trim_stop front (0 ∷ 0 ∷ rest) x n e (ground arith)

-- Trimming writes inside the array.
pub length-trim_crlf :
    (buf : List ℕ) (len : ℕ) (out : List ℕ × ℕ)
    → trim_crlf buf len ≡ some out
    → length out.0 ≡ length buf
unfolding trim_crlf
length-trim_crlf buf zero out e =
    let same : out ≡ (buf, 0) = cc in ap (λ (o : List ℕ × ℕ). length o.0) same
length-trim_crlf buf (suc len) out e =
    elim (Bool-cases (byte_at buf len == 0x0D || byte_at buf len == 0x0A)) [
      | inr other ↦
          let kept : some (buf, suc len) ≡ some out = rw other at e in
          let same : out ≡ (buf, suc len) = cc in ap (λ (o : List ℕ × ℕ). length o.0) same
      | inl ends ↦ elim (Option-cases (store buf len (0 ∷ []))) [
        | inl bad ↦ absurd (cc (rw (ends, bad) at e))
        | inr (stored, good) ↦
            let (inside, out_is) = store-eq-some buf len (0 ∷ []) good in
            length-trim_crlf stored len out (rw (ends, good) at e)
            ∙ ap length out_is
            ∙ length-overwrite buf len (0 ∷ []) inside
      ]
    ]
