-- ===== src/Commit/GuestLaws.antt =====
-- When a guest's report is found to carry the TCB values of the host.
use sev_certify.Prelude.{
  String, Bool, true, false, List, [], ◌∷◌, some, ok, err, pos, ◌≡◌, ◌≢◌, refl, ap, ◌∙◌, ◌↔◌, inl,
  inr, arith, Bool-cases, Option-cases, Result-cases, eq_ℤ_iff, sym,
}
use sev_certify.Prelude.Dicts.{Dict, get}
use sev_certify.Prelude.Quoting.{shell_join}
use sev_certify.Models.Definitions.{StepHandlerResult}
use sev_certify.Harness.World.{CompletedProcess}
use sev_certify.Commit.Sections.{parse_tcb_sections}
use sev_certify.Commit.Fields.{tcb_fields_match, Agrees, tcb_fields_match-Agrees}
use sev_certify.Commit.Tools.{
  Raised, runtime_error, name_error, process_error, Tools, succeeded, display_report, show_tcb,
  ReportTcb, HostTcb, host_sections, report_tcb_of, host_tcb_of, parse_report_tcb_sections,
  read_host_tcb,
}
use sev_certify.Commit.Verify.{guest_tcb_result, verify_guest_tcb, errors_of, guest_report_result}
use sev_certify.Commit.GateLaws.{Passes, Displays, parse_report-Displays, Displays-parse_report}

host_sections-ok :
    (sections : Dict (Dict String)) (reported platform : Dict String)
    → (host_sections sections ≡ ok (record { reported = reported; platform = platform }))
      ↔ ((get "Reported" sections ≡ some reported) × (get "Platform" sections ≡ some platform))
unfolding host_sections
host_sections-ok sections reported platform = elim (Option-cases (get "Reported" sections)) [
  | inl e ↦ (λ h. absurd (ground (arith, e, h)), λ h. absurd (ground (arith, e, h.0)))
  | inr (a, e) ↦ elim (Option-cases (get "Platform" sections)) [
    | inl e1 ↦ (λ h. absurd (ground (arith, e, e1, h)), λ h. absurd (ground (arith, e1, h.1)))
    | inr (b, e1) ↦ (
      λ h. (ground (arith, e, e1, h), ground (arith, e, e1, h)),
      λ h. ground (arith, e, e1, h.0, h.1),
    )
  ]
]

host_tcb_of-ok :
    (proc : CompletedProcess) (tcb : HostTcb)
    → (host_tcb_of proc ≡ ok tcb) ↔ (
        (proc.returncode ≡ pos 0)
        × (get "Reported" (parse_tcb_sections proc.stdout) ≡ some tcb.reported)
        × (get "Platform" (parse_tcb_sections proc.stdout) ≡ some tcb.platform))
unfolding host_tcb_of
host_tcb_of-ok proc tcb =
    let sections = host_sections-ok (parse_tcb_sections proc.stdout) tcb.reported tcb.platform in
    let zero = eq_ℤ_iff proc.returncode (pos 0) in
    elim (Bool-cases (succeeded proc)) [
      | inl e ↦ (
        λ h. (zero.0 e, (sections.0 (rw e at h)).0, (sections.0 (rw e at h)).1),
        λ h. rw e (sections.1 (h.1, h.2)),
      )
      | inr e ↦ (λ h. absurd (ground (arith, e, h)), λ h. absurd (ground (arith, e, zero, h.0)))
    ]

-- What the four readings must satisfy after a reset, and after a lowering.
abbrev pub Expected : Bool → HostTcb → Type 0
Expected true host = Agrees host.reported host.platform
Expected false host = ¬ Agrees host.reported host.platform

abbrev pub Carries : Bool → ReportTcb → HostTcb → Type 0
Carries expect guest host =
    Agrees guest.reported host.reported × Agrees guest.current host.platform × Expected expect host

no_errors :
    (reported current platform expect : Bool)
    → (errors_of reported current platform expect ≡ [])
      ↔ ((reported ≡ true) × (current ≡ true) × (platform ≡ expect))
no_errors true true true true = (λ h. (refl, refl, refl), λ h. refl)
no_errors true true false false = (λ h. (refl, refl, refl), λ h. refl)
no_errors true true true false = (λ h. absurd (cc), λ h. absurd (cc h.2))
no_errors true true false true = (λ h. absurd (cc), λ h. absurd (cc h.2))
no_errors true false platform expect = (λ h. absurd (cc), λ h. absurd (cc h.1))
no_errors false current platform expect = (λ h. absurd (cc), λ h. absurd (cc h.0))

guest_report_result-errors :
    (errors dump : List String) (expect : Bool) (cmd : String)
    → ((guest_report_result errors dump expect cmd).exit_code ≡ pos 0) ↔ (errors ≡ [])
guest_report_result-errors [] dump expect cmd = (λ h. refl, λ h. refl)
guest_report_result-errors (e ∷ errors) dump expect cmd = (λ h. absurd (cc h), λ h. absurd (cc h))

match-Expected :
    (expect : Bool) (host : HostTcb)
    → (tcb_fields_match host.reported host.platform ≡ expect) ↔ Expected expect host
match-Expected true host = tcb_fields_match-Agrees host.reported host.platform
match-Expected false host =
    let agrees = tcb_fields_match-Agrees host.reported host.platform in
    (
      λ h a. absurd (cc (h, agrees.1 a)),
      λ n. elim (Bool-cases (tcb_fields_match host.reported host.platform)) [
        | inl e ↦ absurd (n (agrees.0 e))
        | inr e ↦ e
      ],
    )

module _ {W : Type 0} (tools : Tools W) where
  guest_tcb_result-Carries :
      (expect : Bool) (guest : ReportTcb) (host : HostTcb) (guest_cmd host_cmd : String)
      → ((guest_tcb_result tools expect (guest, guest_cmd) (host, host_cmd)).exit_code ≡ pos 0)
        ↔ Carries expect guest host
  unfolding guest_tcb_result
  guest_tcb_result-Carries expect guest host guest_cmd host_cmd =
      let reported = tcb_fields_match-Agrees guest.reported host.reported in
      let current = tcb_fields_match-Agrees guest.current host.platform in
      let platform = match-Expected expect host in
      let errors =
        no_errors (tcb_fields_match guest.reported host.reported)
          (tcb_fields_match guest.current host.platform)
          (tcb_fields_match host.reported host.platform) expect in
      let exit =
        guest_report_result-errors
          (errors_of (tcb_fields_match guest.reported host.reported)
            (tcb_fields_match guest.current host.platform)
            (tcb_fields_match host.reported host.platform) expect)
          _ expect _ in
      (
        λ h. let es = errors.0 (exit.0 h) in (reported.0 es.0, current.0 es.1, platform.0 es.2),
        λ h. exit.1 (errors.1 (reported.1 h.0, current.1 h.1, platform.1 h.2)),
      )

  -- `snphost show tcb` succeeds and shows these sections.
  abbrev pub HostShows : W → HostTcb → Type 0
  HostShows w tcb =
      (proc : CompletedProcess) × ((tools.run show_tcb 10 w).0 ≡ ok proc)
      × (proc.returncode ≡ pos 0)
      × (get "Reported" (parse_tcb_sections proc.stdout) ≡ some tcb.reported)
      × (get "Platform" (parse_tcb_sections proc.stdout) ≡ some tcb.platform)

  read_host_tcb-HostShows :
      (w : W) (tcb : HostTcb) (cmd : String)
      → (read_host_tcb tools w).0 ≡ ok (tcb, cmd)
      → HostShows w tcb
  unfolding read_host_tcb
  read_host_tcb-HostShows w tcb cmd h = elim (Result-cases (tools.run show_tcb 10 w).0) [
    | inr (raised, e) ↦ absurd (ground (arith, e, h))
    | inl (proc, e) ↦ elim (Result-cases (host_tcb_of proc)) [
      | inr (raised, e1) ↦ absurd (ground (arith, e, e1, h))
      | inl (read, e1) ↦
          let same : read ≡ tcb = ground (arith, e, e1, h) in
          let found = (host_tcb_of-ok proc tcb).0 (e1 ∙ ap (λ t. ok t) same) in
          (proc, e, found.0, found.1, found.2)
    ]
  ]

  HostShows-read_host_tcb :
      (w : W) (tcb : HostTcb)
      → HostShows w tcb
      → (read_host_tcb tools w).0 ≡ ok (tcb, shell_join show_tcb)
  unfolding read_host_tcb
  HostShows-read_host_tcb w tcb (proc, e, zero, a, b) =
      let read = (host_tcb_of-ok proc tcb).1 (zero, a, b) in ground (arith, e, read)

  -- What the report's reading leaves of the world is what its process leaves.
  parse_report-world :
      (path : String) (w : W)
      → (parse_report_tcb_sections tools path w).1 ≡ (tools.run (display_report path) 10 w).1
  unfolding parse_report_tcb_sections
  parse_report-world path w = elim (Result-cases (tools.run (display_report path) 10 w).0) [
    | inr (raised, e) ↦ ground (arith, e)
    | inl (proc, e) ↦ elim (Result-cases (report_tcb_of proc)) [
      | inr (raised, e1) ↦ ground (arith, e, e1)
      | inl (read, e1) ↦ ground (arith, e, e1)
    ]
  ]

  guest_unread :
      (path : String) (expect : Bool) (w : W) {r : StepHandlerResult} (raised : Raised)
      → (parse_report_tcb_sections tools path w).0 ≡ err raised
      → (verify_guest_tcb tools path expect w).0 ≢ ok r
  unfolding verify_guest_tcb
  guest_unread path expect w (runtime_error m) e = λ h. ground (arith, e, h)
  guest_unread path expect w (name_error m) e = λ h. ground (arith, e, h)
  guest_unread path expect w (process_error x) e = λ h. ground (arith, e, h)

  host_unread :
      (path : String) (expect : Bool) (w : W) (guest : ReportTcb × String) {r : StepHandlerResult}
      (raised : Raised)
      → (parse_report_tcb_sections tools path w).0 ≡ ok guest
      → (read_host_tcb tools (parse_report_tcb_sections tools path w).1).0 ≡ err raised
      → (verify_guest_tcb tools path expect w).0 ≢ ok r
  unfolding verify_guest_tcb
  host_unread path expect w guest (runtime_error m) e e1 = λ h. ground (arith, e, e1, h)
  host_unread path expect w guest (name_error m) e e1 = λ h. ground (arith, e, e1, h)
  host_unread path expect w guest (process_error x) e e1 = λ h. ground (arith, e, e1, h)

  both_read :
      (path : String) (expect : Bool) (w : W) (guest : ReportTcb × String) (host : HostTcb × String)
      → (parse_report_tcb_sections tools path w).0 ≡ ok guest
      → (read_host_tcb tools (parse_report_tcb_sections tools path w).1).0 ≡ ok host
      → (verify_guest_tcb tools path expect w).0 ≡ ok (guest_tcb_result tools expect guest host)
  unfolding verify_guest_tcb
  both_read path expect w guest host e e1 = ground (arith, e, e1)

  -- The check of a guest's report passes exactly if the report and then the host's TCB can be read, the
  -- report's reported TCB agrees with the host's, its current TCB with the platform's, and the host's
  -- reported TCB agrees with the platform's after a reset, and does not after a lowering.
  pub verify_guest_tcb-Carries :
      (path : String) (expect : Bool) (w : W)
      → Passes (verify_guest_tcb tools path expect w).0 ↔ (
          (guest : ReportTcb) × (host : HostTcb) × Displays tools path w guest
          × HostShows (tools.run (display_report path) 10 w).1 host
          × Carries expect guest host)
  verify_guest_tcb-Carries path expect w =
      let after = parse_report-world path w in
      (
        λ h. elim (Result-cases (parse_report_tcb_sections tools path w).0) [
          | inr (raised, e) ↦ absurd (guest_unread path expect w raised e h.1)
          | inl (guest, e) ↦
              elim (Result-cases
                (read_host_tcb tools (parse_report_tcb_sections tools path w).1).0) [
                  | inr (raised, e1) ↦ absurd (host_unread path expect w guest raised e e1 h.1)
                  | inl (host, e1) ↦
                      let same = both_read path expect w guest host e e1 in
                      let exit : (guest_tcb_result tools expect guest host).exit_code ≡ pos 0 =
                        cc (same, h.1, h.2) in
                      (
                        guest.0,
                        host.0,
                        parse_report-Displays tools path w guest.0 guest.1 e,
                        read_host_tcb-HostShows (tools.run (display_report path) 10 w).1 host.0
                            host.1 (ap (λ v. (read_host_tcb tools v).0) (sym after) ∙ e1),
                        (guest_tcb_result-Carries expect guest.0 host.0 guest.1 host.1).0 exit,
                      )
                ]
        ],
        λ h.
            let e = Displays-parse_report tools path w h.0 h.2 in
            let e1 = HostShows-read_host_tcb (tools.run (display_report path) 10 w).1 h.1 h.3 in
            (
              guest_tcb_result tools expect (h.0, shell_join (display_report path))
                  (h.1, shell_join show_tcb),
              both_read path expect w (h.0, shell_join (display_report path))
                  (h.1, shell_join show_tcb) e (ap (λ v. (read_host_tcb tools v).0) after ∙ e1),
              (guest_tcb_result-Carries expect h.0 h.1 _ _).1 h.4,
            ),
      )

  -- A report that `snpguest display report` refuses raises an UnboundLocalError for `guest_cmd`, in
  -- place of the failed step that the handler builds.
  pub verify_guest_tcb-name_error :
      (path : String) (expect : Bool) (w : W) (proc : CompletedProcess)
      → (tools.run (display_report path) 10 w).0 ≡ ok proc
      → proc.returncode ≢ pos 0
      → (verify_guest_tcb tools path expect w).0 ≡ err (name_error "guest_cmd")
  unfolding verify_guest_tcb parse_report_tcb_sections report_tcb_of
  verify_guest_tcb-name_error path expect w proc ran refused = elim (Bool-cases (succeeded proc)) [
    | inl e ↦ absurd (refused ((eq_ℤ_iff proc.returncode (pos 0)).0 e))
    | inr e ↦ ground (arith, ran, e)
  ]
