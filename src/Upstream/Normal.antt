-- ===== src/Upstream/Normal.antt =====
-- `normalize_text` of utils.py.
use shenyugateway.Common.{not, keep_if, List, [], ◌∷◌, if◌then◌else◌}
use shenyugateway.Text.{Text, is_empty}
use shenyugateway.Window.Events.{join_lines}
use shenyugateway.Json.{Json, null, str, arr, obj, Items, nil, cons, get, is_str, Stdlib, to_str}

module _ (std : Stdlib) where
  unfoldable mutual
    pub normalize_text : Json → Text
    normalize_text null = []
    normalize_text (str t) = t
    normalize_text (arr values) =
        join_lines (keep_if (λ part. not (is_empty part)) (normalize_parts values))
    normalize_text (obj d) = std.dumps (obj d)
    normalize_text value = std.repr value

    pub normalize_parts : Items → List Text
    normalize_parts nil = []
    normalize_parts (cons null values) = normalize_parts values
    normalize_parts (cons (str t) values) = t ∷ normalize_parts values
    normalize_parts (cons (obj d) values) =
        (if is_str (get "text" d) then to_str std (get "text" d) else std.dumps (obj d))
        ∷ normalize_parts values
    normalize_parts (cons value values) = normalize_text value ∷ normalize_parts values
