-- ===== src/Cli/Systemd.antt =====
-- `installSystemd` of systemd.go.
use regcachectl.Base.{Bool, ◌++◌, not, Option, none, some, if◌then◌else◌}
use regcachectl.Base.Results.{Result, ok, err}
use regcachectl.Base.Stateful.{◌>>◌}
use regcachectl.Text.{Text, codes, is_empty}
use regcachectl.Dict.{put}
use regcachectl.Cli.Process.{Process, Machine, Run, print_line, warn}

abbrev pub unit_path : Text
unit_path = codes "/etc/systemd/system/tmm-regcache.service"

-- the absolute path of `os.Executable`, where that gives one
unfoldable pub self_path : Option Text → Text
self_path none = codes "/usr/local/bin/regcachectl"
self_path (some self) = if is_empty self then codes "/usr/local/bin/regcachectl" else self

unfoldable pub unit_text : Text → Text
unit_text self =
    codes
      "[Unit]\nDescription=tmm registry pull-through cache fleet (regcachectl)\nRequires=docker.service\nAfter=docker.service network-online.target\nWants=network-online.target\n\n"
    ++ codes "[Service]\nType=oneshot\nRemainAfterExit=yes\nExecStart="
    ++ self
    ++ codes " up\nExecStop="
    ++ self
    ++ codes " down\nTimeoutStartSec=300\n\n[Install]\nWantedBy=multi-user.target\n"

module _ (m : Machine) where
  abbrev pub written : Text → Option Text → Process → Result (Unit {0}) × Process
  written unit none s = (ok tt, record s { files = put unit_path unit s.files })
  written unit (some x) s =
      (err (codes "write " ++ unit_path ++ codes ": " ++ x ++ codes " (run as root?)"), s)

  -- `os.WriteFile`, taken to change nothing where it fails
  unfoldable pub write_unit : Text → Run (Unit {0})
  write_unit unit s = written unit (m.write_error unit_path) s

  unfoldable pub install_systemd : Bool → Run (Unit {0})
  unfolding self_path unit_text
  install_systemd write =
      let unit = unit_text (self_path m.executable) in
      if not write
      then (print_line unit
          >> warn (
              codes
                "\n# to install:\n#   sudo regcachectl install-systemd --write\n#   sudo systemctl enable --now tmm-regcache.service"))
      else (write_unit unit
          >> print_line (codes "wrote " ++ unit_path)
          >> print_line (codes "enable with: sudo systemctl enable --now tmm-regcache.service"))
