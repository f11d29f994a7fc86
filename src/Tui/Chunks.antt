-- ===== src/Tui/Chunks.antt =====
-- What `_rebuild` of tui/src/dinix_tui/app.py makes of the output of the command, which it receives in
-- chunks.
use dinix.Shared.{ℕ, zero, suc, ◌≡◌, refl, sym, ◌∙◌, ap, List, [], ◌∷◌, ◌++◌, append-nil}
use dinix.Shared.Int.{ℤ, pos, negsuc}
use dinix.Exceptions.{Result, ok, err, rebuild_error}
use dinix.Struct.{Bytes}
use dinix.Utf8.{Str}
use dinix.Tui.Act.{Act, for_each, next}
use dinix.Tui.State.{log, plain}
use dinix.Tui.Interfaces.{Dinit, Process, Host, World, on_host}
use dinix.Tui.Text.{splitlines}
use dinix.Tui.Reload.{output, chunk_lines, nonblank, build_result, run_command, nix_prefix}
use dinix.Tui.Lines.{
  newline, splitlines-append, nonblank-append, nonblank-IsWord, IsWord, IsWord-append,
}

module _ (H : Host) where
  -- The text that the chunks hold together.
  abbrev pub whole : List Bytes → Str
  whole [] = []
  whole (raw ∷ raws) = H.decode_replace raw ++ whole raws

  -- Every chunk but the last ends with a line feed.
  abbrev pub IsLines : List Bytes → Type 0
  IsLines [] = Unit {0}
  IsLines (raw ∷ []) = Unit {0}
  IsLines (raw ∷ next_raw ∷ raws) =
      ((s : Str) × (H.decode_replace raw ≡ s ++ newline)) × IsLines (next_raw ∷ raws)

module _ (H : Host) where
  pub chunk_lines-whole :
      (raws : List Bytes) → IsLines H raws → chunk_lines H raws ≡ splitlines (whole H raws)
  unfolding chunk_lines splitlines
  chunk_lines-whole [] h = refl
  chunk_lines-whole (raw ∷ []) h =
      append-nil (splitlines (H.decode_replace raw))
      ∙ ap splitlines (sym (append-nil (H.decode_replace raw)))
  chunk_lines-whole (raw ∷ raw' ∷ raws) ((s, e), h) =
      ap (λ (ls : List Str). splitlines (H.decode_replace raw) ++ ls)
        (chunk_lines-whole (raw' ∷ raws) h)
      ∙ rw e (sym (splitlines-append s (whole H (raw' ∷ raws))))

  -- The lines of two words in two chunks, and in one.
  two_words :
      (a b : Bytes) (c d : ℕ) (s t : Str)
      → H.decode_replace a ≡ c ∷ s
      → H.decode_replace b ≡ d ∷ t
      → IsWord (c ∷ s)
      → IsWord (d ∷ t)
      → nonblank (chunk_lines H (a ∷ b ∷ [])) ≡ (c ∷ s) ∷ (d ∷ t) ∷ []
  unfolding chunk_lines
  two_words a b c d s t ea eb ws wt =
      rw
        (
          ea,
          eb,
          append-nil (splitlines (d ∷ t)),
          nonblank-append (splitlines (c ∷ s)) (splitlines (d ∷ t)),
        )
        (rw (nonblank-IsWord c s ws, nonblank-IsWord d t wt))

-- The last of the lines, and that for an exit code.
abbrev pub last_line : List Str → Result Str
last_line [] = err rebuild_error
last_line (line ∷ []) = ok line
last_line (line ∷ line' ∷ lines) = last_line (line' ∷ lines)

abbrev pub promised : ℤ → List Str → Result Str
promised (pos zero) lines = last_line lines
promised (pos (suc n)) lines = err rebuild_error
promised (negsuc n) lines = err rebuild_error

module _ {D : Dinit} {H : Host} where
  logs_succeed :
      (lines : List Str) (w : World D H)
      → (for_each lines (λ line. output (log (plain nix_prefix line))) w).0 ≡ ok tt
  unfolding for_each
  logs_succeed [] w = refl
  logs_succeed (line ∷ lines) w = logs_succeed lines _

  after :
      {A : Type 0} (f : Act (World D H) A) (r : Result A)
      → (l : Result (Unit {0}) × World D H) → l.0 ≡ ok tt
      → ((w : World D H) → (f w).0 ≡ r)
      → (next (λ _. f) l).0 ≡ r
  after f r (ok t, w) e h = h w
  after f r (err x, w) e h = absurd (cc)

  run_command-result :
      (command : Str) (w : World D H) (process : Process) (host : H.State)
      → H.run command w.host ≡ (ok process, host)
      → (run_command command w).0
        ≡ build_result process.code (nonblank (chunk_lines H process.stdout))
  unfolding run_command on_host
  run_command-result command w process host e =
      rw e (after _ _ _ (logs_succeed (chunk_lines H process.stderr) _) (λ v. refl))

  -- If the command exits with 0 and its standard output is one path, without a space or a line
  -- end, that is received in two chunks that are not empty, `_rebuild` returns the second part of
  -- the path alone, where the output as a whole would give the path.
  pub run_command-splits :
      (command : Str) (w : World D H) (host : H.State) (errors : List Bytes)
      → (a b : Bytes) (c d : ℕ) (s t : Str)
      → H.run command w.host
        ≡ (ok (record { stdout = a ∷ b ∷ []; stderr = errors; code = pos 0 }), host)
      → H.decode_replace a ≡ c ∷ s
      → H.decode_replace b ≡ d ∷ t
      → IsWord (c ∷ s)
      → IsWord (d ∷ t)
      → ((run_command command w).0 ≡ ok (d ∷ t))
        × (build_result (pos 0) (nonblank (splitlines (whole H (a ∷ b ∷ []))))
            ≡ ok (c ∷ (s ++ d ∷ t)))
  unfolding build_result
  run_command-splits command w host errors a b c d s t e ea eb ws wt = (
    run_command-result command w _ host e ∙ rw (two_words H a b c d s t ea eb ws wt),
    rw (ea, eb)
        (rw (append-nil (d ∷ t))
          (rw (nonblank-IsWord c (s ++ d ∷ t) (IsWord-append (c ∷ s) (d ∷ t) ws wt)))),
  )
