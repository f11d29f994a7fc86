-- ===== src/Init/Apply/Rejecting.antt =====
-- What `main` (dinix-init/src/main.rs) leaves alone when it refuses a spec.
use dinix.Shared.{◌≡◌, true, false, Option, List, [], ◌∷◌, ◌++◌, All}
use dinix.Utf8.{Str}
use dinix.Init.Outcome.{ok, err}
use dinix.Init.Expand.{Alphabet, all}
use dinix.Init.Spec.{Message, is_skipped, split_tab, parse_fields}
use dinix.Init.Spec.Lines.{line_char}
use dinix.Init.Spec.Rejecting.{ended, tail, IsGood, parse_with-fails}
use dinix.Init.Apply.{FileSystem, failure, main}

module _ (F : FileSystem) (alphabet : Alphabet) (lookup : Str → Option Str) where
  -- If the spec can be read and consists of lines that are each passed over or a step, with a line
  -- feed behind each, of a line that is neither, and of nothing else or a line feed and any text,
  -- where these lines have no line feed or carriage return in them, `main` ends with a failure and
  -- nothing of the file system has been changed: no step is applied, also none in front of that
  -- line.
  pub main-rejects :
      (path : Str) (s : F.State) (before : List Str) (line : Str) (more : Option Str)
      (message : Message)
      → F.read_to_string path s ≡ ok (ended before (line ++ tail more))
      → All (IsGood alphabet lookup) before
      → all line_char line ≡ true
      → is_skipped line ≡ false
      → parse_fields alphabet lookup (split_tab line) ≡ err message
      → main F alphabet lookup (path ∷ []) s ≡ (failure, s)
  unfolding main
  main-rejects path s before line more message reading h hl step e =
      rw reading (rw (parse_with-fails alphabet lookup before line more message h hl step e))
