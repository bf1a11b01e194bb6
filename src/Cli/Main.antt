-- ===== src/Cli/Main.antt =====
-- cli.c: `cli_main`, over the calls of the session.
use winafi.Prelude.{
  Bool, true, false, not, ◌&&◌, ◌||◌, Option, none, some, List, [], ◌∷◌, ◌==◌, if◌then◌else◌,
}
use winafi.Prelude.Int.{ℤ, pos, negsuc}
use winafi.Prelude.Text.{CString}
use winafi.System.{System}
use winafi.Device.{Device}
use winafi.Os.{Log, Machine}
use winafi.Session.State.{Session, IsoInfo, set_progress_callback}
use winafi.Session.Lifecycle.{enumerate_devices, load_iso, select_device, prepare}
use winafi.Session.Boot.{Parts}
use winafi.Session.Execute.{execute}
use winafi.Cli.Options.{Opt, Args, no_args, parse_options}
use winafi.Cli.Prompts.{get_iso_path_interactive, select_interactive, get_confirmation}

-- What the calls outside of cli.c answer: `new_session` is `winafi_session_create`, `detect`
-- `iso_detect_os`, `listed` and `listed_later` what `device_enumerate` returns at the two calls.
pub record World : Type 0 where
  pub new_session : Option Session
  pub system : System
  pub detect : CString → Option IsoInfo
  pub listed : Option (List Device)
  pub listed_later : Option (List Device)
  pub machine : Machine
  pub parts : Parts

-- The result of `cli_main`, and what was done to the machine.
pub record Ended : Type 0 where
  pub status : ℤ
  pub log : Log

abbrev pub quit : ℤ → Ended
quit status = record { status = status; log = [] }

unfoldable pub run_write : World → Session → Ended
run_write world s =
    let (prepared, ready) = prepare world.system s in
    if not prepared
    then quit (pos 1)
    else (let (written, end) =
          execute world.machine world.parts
            (record { session = set_progress_callback true ready; log = [] }) in
        record { status = if written then pos 0 else pos 1; log = end.log })

-- The tests before the write: the confirmation, and --dangerous.
unfoldable pub consent : World → Args → List CString → Session → Ended
consent world args input s =
    if (args.is_interactive || not args.is_dangerous) && not (get_confirmation input)
    then quit (pos 0)
    else if not args.is_dangerous
    then quit (pos 1)
    else run_write world s

-- With the image loaded and the path of the device. The result of the second list is not read.
unfoldable pub with_device : World → Args → CString → List CString → Session → Ended
with_device world args path input s =
    let (listed, again) = enumerate_devices true world.listed_later s in
    let (selected, target) = select_device world.system (some path) again in
    if not selected then quit (pos 1) else consent world args input target

-- The question over the listed devices.
unfoldable pub among : World → Args → List CString → Session → List Device → Ended
among world args input s [] = quit (pos 1)
among world args input s (d ∷ ds) =
    let answer = select_interactive (d ∷ ds) input in
    elim answer.value [
      | none ↦ quit (pos 1)
      | some path ↦ with_device world args path answer.rest s
    ]

unfoldable pub ask_device : World → Args → List CString → Session → Ended
ask_device world args input s =
    let (listed, known) = enumerate_devices true world.listed s in
    if not listed then quit (pos 1) else among world args input known known.devices

unfoldable pub with_iso : World → Args → CString → List CString → Session → Ended
with_iso world args path input s =
    let (loaded, image) = load_iso world.system world.detect (some path) s in
    if not loaded then quit (pos 1) else elim args.device_path [
      | some device ↦ with_device world args device input image
      | none ↦ ask_device world args input image
    ]

unfoldable pub ask_iso : World → Args → List CString → Session → Ended
ask_iso world args input s = elim args.iso_path [
  | some path ↦ with_iso world args path input s
  | none ↦
      (let answer = get_iso_path_interactive world.system input in
        elim answer.value [
          | none ↦ quit (pos 1)
          | some path ↦ with_iso world args path answer.rest s
        ])
]

abbrev given : Option CString → Bool
given none = false
given (some path) = true

-- `show_devices`.
unfoldable pub show_devices : World → Session → Ended
show_devices world s =
    let (listed, known) = enumerate_devices true world.listed s in
    if listed then quit (pos 0) else quit (negsuc 0)

unfoldable pub with_session : World → Args → List CString → Session → Ended
with_session world args input s =
    if args.list_devices
    then show_devices world s
    else if given args.iso_path && given args.device_path && not args.is_dangerous
    then quit (pos 1)
    else if not (world.system.geteuid == 0)
    then quit (pos 1)
    else ask_iso world args input s

unfoldable pub with_args : World → List CString → Args → Ended
with_args world input args =
    if args.wants_help
    then quit (pos 0)
    else elim world.new_session [ none ↦ quit (pos 1) | some s ↦ with_session world args input s ]

unfoldable pub cli_main : World → List Opt → List CString → Ended
cli_main world opts input = elim (parse_options opts no_args) [
  | none ↦ quit (pos 1)
  | some args ↦ with_args world input args
]
