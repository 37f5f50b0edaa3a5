-- ===== src/Common/LineFiles.antt =====
-- A file of JSON objects, one on each line, as the stores of src/sovereign write and read it.
use mathlib.Core.Path.{◌≡◌, refl, sym, ap, ◌∙◌}
use mathlib.Core.Option.{Option, none, some}
use mathlib.Core.List.{List, [], ◌∷◌, ◌++◌, filter_map}
use gstdbot.Common.Sorted.{filter_map-append, append_nil}

-- What `JSON.stringify` wrote of an object: all of it, or a part that a crash left.
pub data Piece {ℓ} (A : Type ℓ) : Type ℓ where
  whole : A → Piece A
  part : Piece A

-- The lines that end with a newline, and what stands after the last newline. A line is the pieces
-- that were written on it, one after the other.
pub record JsonLines {ℓ} (A : Type ℓ) : Type ℓ where
  pub ended : List (List (Piece A))
  pub tail : List (Piece A)

-- `JSON.parse` of a line: a line of one object parses. Nothing parses of a blank line, of a part of an
-- object's text, or of an object's text after other text.
abbrev pub parse_line {ℓ} : {A : Type ℓ} → List (Piece A) → Option A
parse_line [] = none
parse_line (part ∷ ps) = none
parse_line (whole a ∷ []) = some a
parse_line (whole a ∷ p ∷ ps) = none

abbrev pub read_lines {ℓ} : {A : Type ℓ} → List (List (Piece A)) → List A
read_lines ls = filter_map parse_line ls

-- `readFileSync(file).split('\n')`, and the lines that parse: the text after the last newline is one.
unfoldable pub read {ℓ} : {A : Type ℓ} → JsonLines A → List A
read f = read_lines (f.ended ++ f.tail ∷ [])

-- `appendFileSync(file, JSON.stringify(a) + '\n')`
unfoldable pub append_json {ℓ} : {A : Type ℓ} → A → JsonLines A → JsonLines A
append_json a f = record { ended = f.ended ++ (f.tail ++ whole a ∷ []) ∷ []; tail = [] }

module _ {ℓ} {A : Type ℓ} where
  abbrev pub no_lines : JsonLines A
  no_lines = record { ended = []; tail = [] }

  pub read-ended : (f : JsonLines A) → f.tail ≡ [] → read f ≡ read_lines f.ended
  unfolding read filter_map
  read-ended f e =
      rw e (filter_map-append parse_line f.ended ([] ∷ []) ∙ append_nil (read_lines f.ended))

  -- After a newline, what is appended is read after what was.
  pub read-append_json :
      (a : A) (f : JsonLines A) → f.tail ≡ [] → read (append_json a f) ≡ read f ++ a ∷ []
  unfolding append_json filter_map
  read-append_json a f e =
      read-ended (append_json a f) refl
      ∙ filter_map-append parse_line f.ended ((f.tail ++ whole a ∷ []) ∷ [])
      ∙ ap (λ t. read_lines f.ended ++ read_lines ((t ++ whole a ∷ []) ∷ [])) e
      ∙ ap (λ l. l ++ a ∷ []) (sym (read-ended f e))

  parse_line_glued :
      (p : Piece A) (ps : List (Piece A)) (a : A) → parse_line (p ∷ ps ++ whole a ∷ []) ≡ none
  parse_line_glued part ps a = refl
  parse_line_glued (whole b) [] a = refl
  parse_line_glued (whole b) (q ∷ ps) a = refl

  -- After other text, neither what is appended nor that text is read.
  pub read-append_json_tail :
      (a : A) (f : JsonLines A) (p : Piece A) (ps : List (Piece A))
      → f.tail ≡ p ∷ ps
      → read (append_json a f) ≡ read_lines f.ended
  unfolding append_json filter_map
  read-append_json_tail a f p ps e =
      read-ended (append_json a f) refl
      ∙ filter_map-append parse_line f.ended ((f.tail ++ whole a ∷ []) ∷ [])
      ∙ rw (e, parse_line_glued p ps a) (append_nil (read_lines f.ended))
