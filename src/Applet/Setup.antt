-- ===== src/Applet/Setup.antt =====
-- scripts/test-helpers.ts: the commands of the host that put an example on the device, and the check
-- before them. What each command ends with is given; a Bun shell command throws on a bad exit.
pub mod Order
use sealed_sky_verification.Common.{
  ℕ, ◌+◌, Bool, not, Option, none, some, List, [], ◌∷◌, ◌++◌, ◌==◌, if◌then◌else◌,
}
use sealed_sky_verification.Common.Text.{Text, codes}
use sealed_sky_verification.Codec.{Codec}
use sealed_sky_verification.Json.{Json}
use sealed_sky_verification.Errors.{Error, Result, ok, err, thrown}
use sealed_sky_verification.Js.{trim, to_string}
use sealed_sky_verification.Applet.{
  Exited, Probe, Waited, answered, still_waiting, gave_up, call_applet, wait_for_device,
}

pub data Example : Type 0 where
  square crypto attestation : Example

pub data Command : Type 0 where
  copy_main : Example → Command
  make_applet upload_applet : Command
  sleep : (milliseconds : ℕ) → Command
  refresh_sudo armory_link wait : Command

-- What the commands end with, the time when the wait begins, and the rounds of the wait.
pub record Host : Type 0 where
  pub copied : Exited
  pub made : Exited
  pub uploaded : Exited
  pub sudo : Exited
  pub armed : Exited
  pub wait_start : ℕ
  pub probes : List Probe

-- The commands that were run, and how it ended; `none` is that it still waits.
abbrev pub Run : Type 0
Run = List Command × Option (Result (Unit {0}))

-- What comes after a run goes on only from a good end.
unfoldable pub followed_by : Run → Run → Run
followed_by (done, some (ok u)) (more, result) = (done ++ more, result)
followed_by (done, some (err e)) rest = (done, some (err e))
followed_by (done, none) rest = (done, none)

abbrev checked : Exited → Error → Result (Unit {0})
checked p e = if p.exit == 0 then ok tt else err e

abbrev ran : Command → Exited → Error → Run
ran command p e = (command ∷ [], some (checked p e))

abbrev pub default_wait : ℕ
default_wait = 30000

module _ (host_name : Text) (port : ℕ) (message : Error → Text) (shell_error : Exited → Error) where
  abbrev address : Text
  address = host_name ++ (b':' ∷ to_string port)

  abbrev last_message : Option Error → Text
  last_message none = codes "undefined"
  last_message (some e) = message e

  abbrev waited_result : ℕ → Waited → Option (Result (Unit {0}))
  waited_result timeout answered = some (ok tt)
  waited_result timeout still_waiting = none
  waited_result timeout (gave_up last) = some (
      err (
        thrown (
          codes "device did not answer on "
          ++ (address
              ++ (codes " within "
                  ++ (to_string timeout
                      ++ (codes " ms (last: " ++ (last_message last ++ codes ")"))))))))

  unfoldable pub rearm_link : Host → Run
  unfolding followed_by
  rearm_link h =
      followed_by
        (ran refresh_sudo h.sudo
          (thrown (codes "sudo cache expired mid-run. Re-run 'sudo -v' and try again.")))
        (ran armory_link h.armed (
          thrown (
            codes "armory-link.sh failed (exit "
            ++ (to_string h.armed.exit ++ (codes "): " ++ trim h.armed.stderr)))))

  unfoldable pub make_applet_run : Host → Run
  make_applet_run h =
      ran make_applet h.made
        (thrown (codes "make applet failed:\n" ++ (h.made.stdout ++ (b'\n' ∷ h.made.stderr))))

  unfoldable pub upload_applet_run : Host → Run
  upload_applet_run h =
      ran upload_applet h.uploaded
        (thrown (codes "upload failed:\n" ++ (h.uploaded.stdout ++ (b'\n' ∷ h.uploaded.stderr))))

  abbrev waited : Host → Waited
  waited h = wait_for_device (h.wait_start + default_wait) none h.probes

  abbrev pub copy_run : Example → Host → Run
  copy_run name h = ran (copy_main name) h.copied (shell_error h.copied)

  abbrev pub wait_run : Host → Run
  wait_run h = (wait ∷ [], waited_result default_wait (waited h))

  abbrev pub reboot_run : Run
  reboot_run = (sleep 2000 ∷ [], some (ok tt))

  unfoldable pub setup_applet : Example → Host → Run
  unfolding followed_by rearm_link make_applet_run upload_applet_run wait_for_device
  setup_applet name h = followed_by (copy_run name h) (
      followed_by (make_applet_run h) (
        followed_by (upload_applet_run h)
          (followed_by reboot_run (followed_by (rearm_link h) (wait_run h)))))

  abbrev reached : Result Json → Result (Unit {0})
  reached (ok v) = ok tt
  reached (err e) = err (
      thrown (
        codes "Armory not reachable at "
        ++ (address
            ++ (codes
                  ". Did you flash the SD, set the boot switch to uSD, plug in USB, and run './scripts/armory-link.sh'? (last error: "
                ++ (message e ++ codes ")")))))

  abbrev not_primed : Error
  not_primed = thrown (
      codes
        "sudo not primed. Run 'sudo -v' before 'bun test' so the test runner can re-arm the host IP between device reboots.")

  -- The check of sudo and of the device.
  unfoldable pub preflight : Codec → (sudo : Exited) → (Text → Exited) → Result (Unit {0})
  unfolding call_applet
  preflight c sudo nc =
      let probed = reached (call_applet c nc (codes "__probe") []) in
      if sudo.exit == 0 then probed else err not_primed
