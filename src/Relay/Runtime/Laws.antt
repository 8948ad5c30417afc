-- ===== src/Relay/Runtime/Laws.antt =====
-- The calls on the runtime files where no call fails, and the files that they leave alone.
use syn_os.Common.{ℕ, ◌≡◌, refl, ◌∙◌, true, Option, none, some, [], Bytes}
use syn_os.Io.{Files, update, done, fail, io, open_read}
use syn_os.Io.Clean.{
  clean, bind-done, try-done, try-fail, clean-open_write, clean-open_read, clean-fwrite,
  clean-fclose,
}
use syn_os.Io.Frame.{Frame, frame_rules, Frame-try}
use syn_os.Relay.Runtime.{fprintf, fopen_w, fopen_r, print_file}

module _ (fs : Files) (en : ℕ → ℕ) (path : Bytes) where
  missing_file : fs path ≡ none → open_read path (clean fs en) ≡ (fail io, clean fs en)
  unfolding open_read
  missing_file e = rw e

  clean-fopen_w : fopen_w path (clean fs en) ≡ (done true, clean (update fs path (some [])) en)
  unfolding fopen_w
  clean-fopen_w = bind-done _ _ (try-done _ (clean-open_write fs en path))

  pub clean-fopen_r : fopen_r path (clean fs en) ≡ (done (fs path), clean fs en)
  unfolding fopen_r
  clean-fopen_r = at (fs path) refl
    where
      at : (o : Option Bytes) → fs path ≡ o → fopen_r path (clean fs en) ≡ (done o, clean fs en)
      at none e = try-fail _ (missing_file e)
      at (some b) e = try-done _ (clean-open_read fs en path e)

  clean-fprintf :
      (text : Bytes)
      → fprintf path text (clean (update fs path (some [])) en)
        ≡ (done tt, clean (update fs path (some text)) en)
  unfolding fprintf
  clean-fprintf text = bind-done _ _ (clean-fwrite fs en path [] text)

  pub clean-print_file :
      (text : Bytes)
      → print_file path text (clean fs en) ≡ (done true, clean (update fs path (some text)) en)
  unfolding print_file
  clean-print_file text =
      bind-done _ _ clean-fopen_w
      ∙ bind-done _ _ (clean-fprintf text)
      ∙ bind-done _ _ (clean-fclose fs en path text)

pub Frame-print_file : (path text : Bytes) → Frame path (print_file path text)
unfolding print_file fopen_w fprintf
Frame-print_file path text = search (frame_rules, Frame-try) depth 20 fits 20000
