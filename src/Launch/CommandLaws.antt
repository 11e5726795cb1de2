-- ===== src/Launch/CommandLaws.antt =====
-- What QEMU's command line holds, and what is printed of it.
use Prim.Native.String.{◌++◌}
use text.Mathlib.TextLemmas.{append-nil, append_assoc}
use sev_certify.Prelude.{
  ◌≡◌, refl, sym, ap, ◌∙◌, String, Bool, true, false, ◌&&◌, not, List, [], ◌∷◌,
}
use sev_certify.Prelude.Quoting.{join}
use sev_certify.Launch.Command.{is_flag, chunks, qemu_pretty_chunks}

abbrev tails : List String → String
tails [] = ""
tails (x ∷ xs) = " " ++ (x ++ tails xs)

join-tails : (x : String) (xs : List String) → join " " (x ∷ xs) ≡ x ++ tails xs
join-tails x [] = sym (append-nil x)
join-tails x (y ∷ ys) = ap (λ s. x ++ (" " ++ s)) (join-tails y ys)

tails-pair : (a b t : String) → " " ++ ((a ++ (" " ++ b)) ++ t) ≡ " " ++ (a ++ (" " ++ (b ++ t)))
tails-pair a b t =
    ap (λ s. " " ++ s) (append_assoc a (" " ++ b) t ∙ ap (λ s. a ++ s) (append_assoc " " b t))

-- Both ways in which the loop goes on.
tails-choice :
    (paired : Bool) (cur next : String) (rest joined alone : List String)
    → tails joined ≡ tails rest
    → tails alone ≡ tails (next ∷ rest)
    → tails (elim paired [ true ↦ (cur ++ (" " ++ next)) ∷ joined | false ↦ cur ∷ alone ])
      ≡ tails (cur ∷ next ∷ rest)
tails-choice true cur next rest joined alone e e1 =
    ap (λ t. " " ++ ((cur ++ (" " ++ next)) ++ t)) e ∙ tails-pair cur next (tails rest)
tails-choice false cur next rest joined alone e e1 = ap (λ t. " " ++ (cur ++ t)) e1

tails-chunks : (args : List String) → tails (chunks args) ≡ tails args
unfolding chunks
tails-chunks [] = refl
tails-chunks (cur ∷ []) = refl
tails-chunks (cur ∷ next ∷ rest) =
    tails-choice (is_flag cur && not (is_flag next)) cur next rest (chunks rest)
      (chunks (next ∷ rest)) (tails-chunks rest) (tails-chunks (next ∷ rest))

-- The chunks that are printed hold the arguments, all of them and in order: with blanks between them,
-- they are the command line.
pub join-qemu_pretty_chunks :
    (command : List String) → join " " (qemu_pretty_chunks command) ≡ join " " command
unfolding qemu_pretty_chunks
join-qemu_pretty_chunks [] = refl
join-qemu_pretty_chunks (program ∷ args) =
    join-tails program (chunks args)
    ∙ ap (λ t. program ++ t) (tails-chunks args)
    ∙ sym (join-tails program args)
