-- ===== src/Link/Carried.antt =====
-- The bytes of one payload and its padding in what a network has carried.
use native.Mathlib.Decide.{ℕ_discrete}
use mathlib.Core.List.{append_cancel_left}
use chabu.Prelude.{
  ◌⊎◌, inl, inr, ℕ, ◌+◌, ◌≤◌, ◌≡◌, refl, sym, ◌∙◌, ap, ◌≢◌, List, [], ◌∷◌, ◌++◌, append-nil,
  append_assoc, arith, length, length-append, drop, get_or,
}

-- From `log0` on, `payload` was carried, the first bytes of a payload of `n` bytes, `left` are missing, and what
-- was carried of the padding stands behind the whole payload.
pub record Carried (log0 log payload : List ℕ) (n left : ℕ) : Type 0 where
  pub pad : List ℕ
  pub went : log ≡ log0 ++ (payload ++ pad)
  pub counted : length payload + left ≡ n
  pub waits : left ≢ 0 → pad ≡ []

pub Carried-refl : (log : List ℕ) (n : ℕ) → Carried log log [] n n
Carried-refl log n = record {
  pad = [];
  went = sym (append-nil log);
  counted = omega arith;
  waits = λ h. refl;
}

no_length : (l : List ℕ) → length l ≡ 0 → l ≡ []
no_length [] h = refl
no_length (x ∷ l) h = absurd (ground arith)

-- Payload and padding change places where one of them is empty.
past_pad : (a p b q : List ℕ) → (p ≡ []) ⊎ (b ≡ []) → (a ++ p) ++ (b ++ q) ≡ (a ++ b) ++ (p ++ q)
past_pad a p b q (inl e) =
    ap (λ l. (a ++ l) ++ (b ++ q)) e
    ∙ ap (λ l. l ++ (b ++ q)) (append-nil a)
    ∙ sym (append_assoc a b q)
    ∙ ap (λ l. (a ++ b) ++ (l ++ q)) (sym e)
past_pad a p b q (inr e) =
    ap (λ l. (a ++ p) ++ (l ++ q)) e
    ∙ append_assoc a p q
    ∙ ap (λ l. l ++ (p ++ q)) (sym (append-nil a))
    ∙ ap (λ l. (a ++ l) ++ (p ++ q)) (sym e)

pub Carried-trans :
    (log0 log1 log2 a b : List ℕ) (n left1 left2 : ℕ)
    → Carried log0 log1 a n left1
    → Carried log1 log2 b left1 left2
    → Carried log0 log2 (a ++ b) n left2
Carried-trans log0 log1 log2 a b n left1 left2 d e =
    let apart : (d.pad ≡ []) ⊎ (b ≡ []) = elim (ℕ_discrete left1 0) [
      | yes none_left ↦ inr (no_length b (omega (arith, e.counted, none_left)))
      | no some_left ↦ inl (d.waits some_left)
    ] in
    record {
      pad = d.pad ++ e.pad;
      went =
          e.went
          ∙ ap (λ l. l ++ (b ++ e.pad)) d.went
          ∙ append_assoc log0 (a ++ d.pad) (b ++ e.pad)
          ∙ ap (λ l. log0 ++ l) (past_pad a d.pad b e.pad apart);
      counted = omega (arith, length-append a b, d.counted, e.counted);
      waits =
          λ h. ap (λ l. l ++ e.pad) (d.waits (λ z. h (omega (arith, e.counted, z)))) ∙ e.waits h;
    }

-- Of two lists that begin the same, the shorter one is a part of the other.
pub shorter :
    (a b c d : List ℕ) → a ++ b ≡ c ++ d → length a ≤ length c → (more : List ℕ) × (a ++ more ≡ c)
shorter [] b c d e h = (c, refl)
shorter (x ∷ a) b [] d e h = absurd (ground arith)
shorter (x ∷ a) b (y ∷ c) d e h =
    let (more, f) = shorter a b c d (ap (drop 1) e) (ground arith) in
    (more, cc (f, ap (λ l. get_or l 0 0) e))

-- What has come is the beginning of what was sent, so the part of the payload that has come is the
-- beginning of the part that was sent.
pub Carried-shorter :
    (log0 sent arrived rest a b : List ℕ) (n to_send to_come : ℕ)
    → Carried log0 sent a n to_send
    → Carried log0 arrived b n to_come
    → arrived ++ rest ≡ sent
    → (more : List ℕ) × (b ++ more ≡ a)
Carried-shorter log0 sent arrived rest a b n to_send to_come d e late =
    let same : b ++ (e.pad ++ rest) ≡ a ++ d.pad = append_cancel_left log0 _ _ (
      ap (λ l. log0 ++ l) (sym (append_assoc b e.pad rest))
      ∙ sym (append_assoc log0 (b ++ e.pad) rest)
      ∙ ap (λ l. l ++ rest) (sym e.went)
      ∙ late
      ∙ d.went) in
    elim (ℕ_discrete to_send 0) [
      | yes all_sent ↦
          shorter b (e.pad ++ rest) a d.pad same (omega (arith, d.counted, e.counted, all_sent))
      | no some_left ↦ (e.pad ++ rest, same ∙ ap (λ l. a ++ l) (d.waits some_left) ∙ append-nil a)
    ]
