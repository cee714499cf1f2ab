-- ===== src/Common/Config/Save.antt =====
-- What a save leaves in the file.
use aws_nitro_enclaves_acm.Prelude.{◌≡◌, true, some, ok, arith}
use aws_nitro_enclaves_acm.Common.Config.{Json, RoundTrips, Io, Config, whole, save}

module _ (j : Json) where
  -- A save that succeeds and writes everything stores the device of the config.
  pub save-stores :
      (io : Io) (c : Config) (text : j.Text)
      → RoundTrips j
      → io.written ≡ whole
      → (save j io c text).0 ≡ ok tt
      → j.from_json (save j io c text).1 ≡ some c.device
  unfolding save
  save-stores io c text rt w h = ground (arith, rt c.device)

  -- A save that works on every system call succeeds.
  pub save-ok :
      (io : Io) (c : Config) (text : j.Text)
      → c.file ≡ true
      → io.sought ≡ true
      → io.truncated ≡ true
      → io.written ≡ whole
      → io.flushed ≡ true
      → save j io c text ≡ (ok tt, j.to_json c.device)
  unfolding save
  save-ok io c text f s t w l = ground arith
