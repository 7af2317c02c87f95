-- ===== src/Batcher/Ids.antt =====
-- The documents of activations (`WriteActivation` of pkg/couchdb/batcher.go).
use mathlib.Core.List.{append_assoc}
use functions_invoker.Base.{◌≡◌, refl, sym, ◌∙◌, ap, Option, some, [], ◌∷◌, ◌++◌, codes}
use functions_invoker.Entities.{Text, Activation}
use functions_invoker.Batcher.{without_last, write_activation}

without_last-append : (t : Text) → without_last (t ++ codes "}") ≡ t
unfolding without_last
without_last-append [] = refl
without_last-append (x ∷ []) = refl
without_last-append (x ∷ y ∷ ys) = ap (λ (l : Text). x ∷ l) (without_last-append (y ∷ ys))

abbrev pub id_field : Activation → Text
id_field a =
    codes ",\"_id\":\""
    ++ (codes a.namespace ++ (codes "/" ++ (codes a.activation_id ++ codes "\"")))

id_field-closed :
    (a : Activation)
    → id_field a ++ codes "}"
      ≡ codes ",\"_id\":\""
        ++ (codes a.namespace ++ (codes "/" ++ (codes a.activation_id ++ codes "\"}")))
id_field-closed a =
    ap (λ (l : Text). codes ",\"_id\":\"" ++ l)
      (append_assoc (codes a.namespace) (codes "/" ++ (codes a.activation_id ++ codes "\""))
          (codes "}")
        ∙ ap (λ (l : Text). codes a.namespace ++ (codes "/" ++ l))
            (append_assoc (codes a.activation_id) (codes "\"") (codes "}")))

-- An activation whose encoding is the given fields between brackets becomes the document with the
-- same fields and the id as the last one, between the same brackets.
pub write_activation-id :
    (marshal : Activation → Option Text) (a : Activation) (fields : Text)
    → marshal a ≡ some (codes "{" ++ (fields ++ codes "}"))
    → write_activation marshal a ≡ some (codes "{" ++ (fields ++ (id_field a ++ codes "}")))
unfolding write_activation
write_activation-id marshal a fields e =
    rw (write_activation, e)
      (ap (λ (l : Text). some (l ++ closed)) (without_last-append (codes "{" ++ fields))
        ∙ ap (λ (l : Text). some (codes "{" ++ (fields ++ l))) (sym (id_field-closed a)))
  where
    closed : Text
    closed =
        codes ",\"_id\":\""
        ++ (codes a.namespace ++ (codes "/" ++ (codes a.activation_id ++ codes "\"}")))
