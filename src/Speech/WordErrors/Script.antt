-- ===== src/Speech/WordErrors/Script.antt =====
-- What the word error rate measures, without reference to a table: the scripts of edits that turn one list
-- of words into another.
use mathlib.Core.Path.{subst}
use mathlib.Core.List.{reverse-cons}
use voxenta_agentic_ai.Prelude.{
  ℕ, suc, ◌+◌, ◌≡◌, List, [], ◌∷◌, ◌++◌, reverse, append-nil, Text, arith,
}

-- `Script old new cost`: the edits turn `old` into `new`, and so many of them are no mere copy.
pub data Script : List Text → List Text → ℕ → Type 0 where
  done : Script [] [] 0
  copy : (w : Text) {old new : List Text} {n : ℕ} → Script old new n → Script (w ∷ old) (w ∷ new) n
  replace :
      (v w : Text) {old new : List Text} {n : ℕ}
      → Script old new n
      → Script (v ∷ old) (w ∷ new) (suc n)
  erase : (v : Text) {old new : List Text} {n : ℕ} → Script old new n → Script (v ∷ old) new (suc n)
  insert :
      (w : Text) {old new : List Text} {n : ℕ} → Script old new n → Script old (w ∷ new) (suc n)

pub costing : {old new : List Text} {m n : ℕ} → m ≡ n → Script old new m → Script old new n
costing {old} {new} e s = subst (λ k. Script old new k) e s

pub Script-append :
    {a b c d : List Text} {m n : ℕ} → Script a b m → Script c d n → Script (a ++ c) (b ++ d) (m + n)
Script-append done t = costing (omega arith) t
Script-append (copy w s) t = copy w (Script-append s t)
Script-append (replace v w s) t = costing (omega arith) (replace v w (Script-append s t))
Script-append (erase v s) t = costing (omega arith) (erase v (Script-append s t))
Script-append (insert w s) t = costing (omega arith) (insert w (Script-append s t))

-- A last word that is only erased, or only inserted.
erase_last :
    (v : Text) {old new : List Text} {n : ℕ} → Script old new n → Script (old ++ v ∷ []) new (suc n)
erase_last v {old} {new} {n} s = costing {m = n + 1} (omega arith) (
    subst (λ b. Script (old ++ v ∷ []) b (n + 1)) (append-nil new) (Script-append s (erase v done)))

insert_last :
    (w : Text) {old new : List Text} {n : ℕ} → Script old new n → Script old (new ++ w ∷ []) (suc n)
insert_last w {old} {new} {n} s = costing {m = n + 1} (omega arith) (
    subst (λ a. Script a (new ++ w ∷ []) (n + 1)) (append-nil old)
      (Script-append s (insert w done)))

pub Script-reverse :
    {old new : List Text} {n : ℕ} → Script old new n → Script (reverse old) (reverse new) n
Script-reverse done = done
Script-reverse (copy w {old} {new} s) =
    rw (reverse-cons w old, reverse-cons w new)
      (costing (omega arith) (Script-append (Script-reverse s) (copy w done)))
Script-reverse (replace v w {old} {new} s) =
    rw (reverse-cons v old, reverse-cons w new)
      (costing (omega arith) (Script-append (Script-reverse s) (replace v w done)))
Script-reverse (erase v {old} s) = rw (reverse-cons v old) (erase_last v (Script-reverse s))
Script-reverse (insert w {old} {new} s) = rw (reverse-cons w new) (insert_last w (Script-reverse s))

-- The edits undone.
pub Script-flip : {old new : List Text} {n : ℕ} → Script old new n → Script new old n
Script-flip done = done
Script-flip (copy w s) = copy w (Script-flip s)
Script-flip (replace v w s) = replace w v (Script-flip s)
Script-flip (erase v s) = insert v (Script-flip s)
Script-flip (insert w s) = erase w (Script-flip s)

pub copies : (old : List Text) → Script old old 0
copies [] = done
copies (w ∷ old) = copy w (copies old)
