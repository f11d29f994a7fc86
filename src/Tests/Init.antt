-- ===== src/Tests/Init.antt =====
-- dinix-init (dinix-init/src) and dinix-unless (dinix-unless/src/main.rs) at concrete inputs, on the
-- letters and digits of ASCII.
use dinix.Shared.{
  Bool, ℕ, ◌≡◌, refl, false, true, All, Option, none, some, List, [], ◌∷◌, ◌++◌, arith,
  if◌then◌else◌, inl, inr,
}
use dinix.Shared.Dict.{key_eq}
use dinix.Utf8.{Str}
use dinix.Init.Outcome.{Outcome, ok, err}
use dinix.Init.Expand.{
  Alphabet, colon_dash, plus, is_name, all, expand, is_name_char, is_name_start,
}
use dinix.Init.Expand.Names.{ascii_letter, ascii_digit, IsAscii}
use dinix.Init.Expand.Pieces.{
  Piece, literal, doubled, lone, bare, braces, written, values, expand-written,
}
use dinix.Init.Expand.Terminates.{Halts, expand-Halts}
use dinix.Init.Spec.{
  Kind, Step, must_exist, unknown_step, is_skipped, split_tab, parse_fields, parse_with,
  from_str_radix, dir_word, dir_step, parse_path, parse_id,
}
use dinix.Init.Spec.Items.{Digits, Item, blank, comment, dir_line, exist_line, spec_text, IsItem}
use dinix.Init.Spec.RoundTrip.{parse_with-items}
use dinix.Init.Spec.Rejecting.{ended, tail, IsGood, parse_with-fails}
use dinix.Init.Apply.{FileSystem, Metadata, success, failure, main}
use dinix.Unless
use dinix.Unless.{System, ran, exits, main-once}
use dinix.Init.Apply.Rejecting.{main-rejects}
use dinix.Init.Apply.Again.{owner_of}

abbrev ascii : Alphabet
ascii = record { is_alphabetic = ascii_letter; is_numeric = ascii_digit }

ascii-IsAscii : IsAscii ascii
ascii-IsAscii = record { letters = λ c h. refl; digits = λ c h. refl }

-- Only "A" is set, to "/x".
abbrev variables : Str → Option Str
variables name = if key_eq name (b'A' ∷ []) then some (b'/' ∷ b'x' ∷ []) else none

-- "${B:-w}$A/${A+s}$$"
abbrev pieces : List Piece
pieces =
    braces (b'B' ∷ []) colon_dash (b'w' ∷ [])
    ∷ bare (b'A' ∷ [])
    ∷ literal b'/'
    ∷ braces (b'A' ∷ []) plus (b's' ∷ [])
    ∷ doubled
    ∷ lone
    ∷ []

expand-Halts_example : Halts (expand ascii variables (b'$' ∷ b'{' ∷ b'A' ∷ []))
expand-Halts_example = expand-Halts ascii variables (b'$' ∷ b'{' ∷ b'A' ∷ [])

expand-written_example : expand ascii variables (written pieces) ≡ ok (values variables pieces)
unfolding is_name all is_name_char is_name_start
expand-written_example =
    expand-written ascii ascii-IsAscii variables pieces
      ((refl, refl), ((refl, refl), (refl, ((refl, refl), (tt, (tt, tt))))))

-- A comment, a blank line, a directory and a mount.
abbrev path : Str
path = b'/' ∷ b'd' ∷ []

abbrev mode_digits : Digits
mode_digits = record { first = 0; others = 7 ∷ 5 ∷ 5 ∷ [] }

abbrev user : Digits
user = record { first = 5; others = [] }

abbrev items : List Item
items =
    comment (b'n' ∷ [])
    ∷ blank
    ∷ dir_line path mode_digits (some user) none
    ∷ exist_line path Kind.dir
    ∷ []

abbrev steps : List Step
steps = Step.dir path 0x1ED (some 5) none ∷ must_exist path Kind.dir ∷ []

items-IsItem : All IsItem items
unfolding all
items-IsItem = (
  refl,
  (
    tt,
    (
      (
        (omega arith, refl),
        ((omega arith, (omega arith, (omega arith, (omega arith, tt)))), omega arith),
        ((omega arith, tt), omega arith),
        tt,
      ),
      ((omega arith, refl), tt),
    ),
  ),
)

parse_with-items_example : parse_with ascii variables (spec_text items []) ≡ ok steps
parse_with-items_example = parse_with-items ascii ascii-IsAscii variables items items-IsItem

-- "exec"
abbrev bad_line : Str
bad_line = b'e' ∷ b'x' ∷ b'e' ∷ b'c' ∷ []

bad : parse_fields ascii variables (split_tab bad_line) ≡ err (unknown_step bad_line)
unfolding parse_fields split_tab key_eq
bad = refl

-- "#n", "", and a directory "${A}" of mode 755
abbrev expanded_line : Str
expanded_line =
    dir_word ++ (9 ∷ b'$' ∷ b'{' ∷ b'A' ∷ b'}' ∷ 9 ∷ b'7' ∷ b'5' ∷ b'5' ∷ 9 ∷ b'-' ∷ 9 ∷ b'-' ∷ [])

abbrev good_lines : List Str
good_lines = (b'#' ∷ b'n' ∷ []) ∷ [] ∷ expanded_line ∷ []

expanded :
    parse_fields ascii variables (split_tab expanded_line)
    ≡ ok (Step.dir (b'/' ∷ b'x' ∷ []) 0x1ED none none)
unfolding parse_fields split_tab dir_step parse_path parse_id from_str_radix expand key_eq
expanded = refl

good_lines-IsGood : All (IsGood ascii variables) good_lines
unfolding all is_skipped
good_lines-IsGood = ((refl, inl refl), ((refl, inl refl), ((refl, inr (refl, (_, expanded))), tt)))

-- The bad line is the last one, and has no line feed.
parse_with-fails_example :
    parse_with ascii variables (ended good_lines (bad_line ++ tail none))
    ≡ err (record { line_number = 4; message = unknown_step bad_line })
unfolding all is_skipped
parse_with-fails_example =
    parse_with-fails ascii variables good_lines bad_line none (unknown_step bad_line)
      good_lines-IsGood refl refl bad

-- A file system that has the one directory of its state, and the spec with the bad line.
abbrev one_directory : FileSystem
one_directory = record {
  State = Metadata;
  Error = Unit {0};
  is_not_found = λ e. true;
  read_to_string = λ path s. ok (ended good_lines (bad_line ++ tail none));
  create_dir_all = λ path s. (ok tt, s);
  symlink_metadata = λ path s. ok s;
  metadata = λ path s. ok s;
  set_permissions = λ path mode s. (ok tt, record s { mode = mode });
  chown =
      λ path uid gid s. (ok tt, record s { uid = owner_of uid s.uid; gid = owner_of gid s.gid });
}

abbrev fresh_directory : Metadata
fresh_directory = record {
  is_dir = true;
  is_file = false;
  is_symlink = false;
  mode = 0x1C0;
  uid = 0;
  gid = 0;
}

abbrev moded : ℕ → Metadata → Metadata
moded n d = record d { mode = n }

abbrev owned : Option ℕ → Option ℕ → Metadata → Metadata
owned uid gid d = record d { uid = owner_of uid d.uid; gid = owner_of gid d.gid }

abbrev found_of : Outcome (Unit {0}) Metadata → Metadata
found_of (ok m) = m
found_of (err e) = fresh_directory

abbrev settled_directory : Metadata
settled_directory = record fresh_directory { mode = 0x1ED; uid = 5 }

-- A system that knows whether the marker is there, and a program that makes it.
abbrev marking : System
marking = record { State = Bool; is_found = λ path s. s; exec = λ program args s. some true }

marked : (t : Bool) → marking.exec path [] false ≡ some t → t ≡ true
marked true e = refl
marked false e = cc

main-once_example : Unless.main marking (path ∷ path ∷ []) true ≡ exits success true
unfolding Unless.main Unless.already_done
main-once_example = main-once marking path path [] false true marked refl

main-rejects_example :
    main one_directory ascii variables (path ∷ []) fresh_directory ≡ (failure, fresh_directory)
unfolding all is_skipped
main-rejects_example =
    main-rejects one_directory ascii variables path fresh_directory good_lines bad_line none
      (unknown_step bad_line) refl good_lines-IsGood refl refl bad
