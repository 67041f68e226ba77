-- ===== src/Applet/Setup/Order.antt =====
-- scripts/test-helpers.ts: what a setup that succeeds has run.
use sealed_sky_verification.Applet.Setup.{
  copy_run, wait_run, reboot_run, Example, Command, copy_main, make_applet, upload_applet, sleep,
  refresh_sudo, armory_link, wait, Host, Run, followed_by, ran, rearm_link, make_applet_run,
  upload_applet_run, waited_result, default_wait, setup_applet,
}
use sealed_sky_verification.Common.{
  ℕ, ◌≡◌, refl, ap, ◌∙◌, ◌+◌, true, Bool-cases, inl, inr, none, some, [], ◌∷◌, ◌++◌, ◌==◌,
}
use sealed_sky_verification.Common.Text.{Text}
use sealed_sky_verification.Errors.{Error, ok, err}
use sealed_sky_verification.Applet.{
  Exited, Waited, answered, still_waiting, gave_up, wait_for_device,
}

abbrev Good : Run → Type 0
Good r = r.1 ≡ some (ok tt)

-- Both parts of a run that ends well end well, and their commands are run one after the other.
followed_by-Good :
    (r s : Run) → Good (followed_by r s) → Good r × Good s × ((followed_by r s).0 ≡ r.0 ++ s.0)
unfolding followed_by
followed_by-Good (done, some (ok u)) (more, result) h = (refl, h, refl)
followed_by-Good (done, some (err e)) s h = absurd (cc h)
followed_by-Good (done, none) s h = absurd (cc h)

ran-Good :
    (command : Command) (p : Exited) (e : Error) → Good (ran command p e) → (p.exit == 0) ≡ true
ran-Good command p e h = elim (Bool-cases (p.exit == 0)) [
  | inl z ↦ z
  | inr z ↦ absurd (cc (rw z at h))
]

waited-answered :
    (host_name : Text) (port : ℕ) (message : Error → Text) (shell_error : Exited → Error)
    (timeout : ℕ) (w : Waited)
    → waited_result host_name port message shell_error timeout w ≡ some (ok tt)
    → w ≡ answered
waited-answered host_name port message shell_error timeout answered h = refl
waited-answered host_name port message shell_error timeout still_waiting h = absurd (cc h)
waited-answered host_name port message shell_error timeout (gave_up last) h = absurd (cc h)

module _ (host_name : Text) (port : ℕ) (message : Error → Text) (shell_error : Exited → Error) where
  rearm_link-Good :
      (h : Host)
      → Good (rearm_link host_name port message shell_error h)
      → ((h.sudo.exit == 0) ≡ true)
        × ((h.armed.exit == 0) ≡ true)
        × ((rearm_link host_name port message shell_error h).0 ≡ refresh_sudo ∷ armory_link ∷ [])
  unfolding rearm_link
  rearm_link-Good h good =
      let (a, b, same) = followed_by-Good _ _ good in
      (ran-Good refresh_sudo h.sudo _ a, ran-Good armory_link h.armed _ b, same)

  -- A setup that succeeds has run its seven commands in their order, each that can fail with a good
  -- end, and the device has answered a probe within the thirty seconds of the wait.
  setup_applet-ok :
      (name : Example) (h : Host)
      → Good (setup_applet host_name port message shell_error name h)
      → ((setup_applet host_name port message shell_error name h).0
          ≡ copy_main name
            ∷ make_applet
            ∷ upload_applet
            ∷ sleep 2000
            ∷ refresh_sudo
            ∷ armory_link
            ∷ wait
            ∷ [])
        × ((h.copied.exit == 0) ≡ true)
        × ((h.made.exit == 0) ≡ true)
        × ((h.uploaded.exit == 0) ≡ true)
        × ((h.sudo.exit == 0) ≡ true)
        × ((h.armed.exit == 0) ≡ true)
        × (wait_for_device (h.wait_start + default_wait) none h.probes ≡ answered)
  unfolding setup_applet make_applet_run upload_applet_run
  setup_applet-ok name h good =
      let copied = copy_run host_name port message shell_error name h in
      let made = make_applet_run host_name port message shell_error h in
      let uploaded = upload_applet_run host_name port message shell_error h in
      let reboot = reboot_run host_name port message shell_error in
      let rearmed = rearm_link host_name port message shell_error h in
      let waits = wait_run host_name port message shell_error h in
      let last = followed_by rearmed waits in
      let (a, rest_a, done_a) =
        followed_by-Good copied (followed_by made (followed_by uploaded (followed_by reboot last)))
          good in
      let (b, rest_b, done_b) =
        followed_by-Good made (followed_by uploaded (followed_by reboot last)) rest_a in
      let (d, rest_d, done_d) = followed_by-Good uploaded (followed_by reboot last) rest_b in
      let (e, rest_e, done_e) = followed_by-Good reboot last rest_d in
      let (f, rest_f, done_f) = followed_by-Good rearmed waits rest_e in
      let (sudo, armed, linked) = rearm_link-Good h f in
      (
        done_a
            ∙ ap (λ r. copy_main name ∷ r)
                (done_b
                  ∙ ap (λ r. make_applet ∷ r)
                      (done_d
                        ∙ ap (λ r. upload_applet ∷ r)
                            (done_e
                              ∙ ap (λ r. sleep 2000 ∷ r)
                                  (done_f ∙ ap (λ r. r ++ (wait ∷ [])) linked)))),
        ran-Good (copy_main name) h.copied _ a,
        ran-Good make_applet h.made _ b,
        ran-Good upload_applet h.uploaded _ d,
        sudo,
        armed,
        waited-answered host_name port message shell_error default_wait _ rest_f,
      )
