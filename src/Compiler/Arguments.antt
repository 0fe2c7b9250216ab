-- ===== src/Compiler/Arguments.antt =====
-- The loop over the arguments of src/compiler/compiler.cpp.
use mathlib.Core.List.{append_assoc, append-nil}
use sprout_lang.Prelude.{ℕ, ◌≡◌, refl, ap, sym, ◌∙◌, List, [], ◌∷◌, ◌++◌}
use sprout_lang.Ast.{Text}
use sprout_lang.Compiler.{join_arguments}

-- Each argument behind a blank.
unfoldable pub behind : List Text → Text
behind [] = []
behind (a ∷ rest) = b' ' ∷ (a ++ behind rest)

-- The arguments from the first that is not empty on, with a blank between each two.
unfoldable pub spelled : List Text → Text
unfolding behind
spelled [] = []
spelled ([] ∷ rest) = spelled rest
spelled ((c ∷ cs) ∷ rest) = (c ∷ cs) ++ behind rest

join_arguments-behind :
    (c : ℕ) (cs : Text) (args : List Text) → join_arguments (c ∷ cs) args ≡ (c ∷ cs) ++ behind args
unfolding join_arguments behind
join_arguments-behind c cs [] = ap (λ (x : Text). c ∷ x) (sym (append-nil cs))
join_arguments-behind c cs (a ∷ rest) =
    join_arguments-behind c ((cs ++ b' ' ∷ []) ++ a) rest
    ∙ ap (λ (x : Text). c ∷ x)
        (append_assoc (cs ++ b' ' ∷ []) a (behind rest)
          ∙ append_assoc cs (b' ' ∷ []) (a ++ behind rest))

pub join_arguments-spelled : (args : List Text) → join_arguments [] args ≡ spelled args
unfolding join_arguments spelled
join_arguments-spelled [] = refl
join_arguments-spelled ([] ∷ rest) = join_arguments-spelled rest
join_arguments-spelled ((c ∷ cs) ∷ rest) = join_arguments-behind c cs rest
