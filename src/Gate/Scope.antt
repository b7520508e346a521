-- ===== src/Gate/Scope.antt =====
-- internal/gate/scope.go: a scope pattern of the manifest, and the paths that it matches.
use layup.Base.{
  Bool, false, not, ◌&&◌, ◌||◌, [], ◌++◌, none, some, ltb, ◌==◌, if◌then◌else◌, is_empty, length,
  Result, ok, err,
}
use layup.Text.{Text, codes, text_eq, has_prefix, contains_byte, contains_any, count_byte}
use layup.Text.Fields.{cut_text, has_suffix, after_last}
use layup.Tsv.Types.Simple.{valid_path}

pub record Pattern : Type 0 where
  pub dir : Text
  pub ext : Text
  pub prefix : Text

pub data PatternError : Type 0 where
  not_a_path : Text → PatternError
  other_form : Text → PatternError

-- `validPath`.
unfoldable pub valid_scope_path : Text → Bool
valid_scope_path s = not (text_eq s (codes ".")) && valid_path s

-- Whether the parts of a pattern with a star are of the form P/*.E.
unfoldable pub star_ok : Text → Text → Text → Bool
star_ok s dir ext =
    (count_byte b'*' s == 1)
    && (not (is_empty ext)
        && (not (contains_any (codes "/*") ext)
            && (text_eq dir (codes ".") || valid_scope_path dir)))

-- `parsePattern`.
unfoldable pub parse_pattern : Text → Result PatternError Pattern
parse_pattern s =
    if not (contains_byte b'*' s)
    then (if not (valid_scope_path s)
        then err (not_a_path s)
        else ok (record { dir = []; ext = []; prefix = s }))
    else elim (cut_text (codes "/*.") s) [
      | none ↦ err (other_form s)
      | some (dir, ext) ↦
          if not (star_ok s dir ext)
          then err (other_form s)
          else ok (record { dir = dir; ext = codes "." ++ ext; prefix = [] })
    ]

-- `pattern.match`.
unfoldable pub matches : Pattern → Text → Bool
matches p path =
    if is_empty p.ext
    then text_eq path p.prefix || has_prefix (p.prefix ++ codes "/") path
    else if not (text_eq p.dir (codes ".")) && not (has_prefix (p.dir ++ codes "/") path)
    then false
    else (has_suffix p.ext (after_last b'/' path)
        && ltb (length p.ext) (length (after_last b'/' path)))
