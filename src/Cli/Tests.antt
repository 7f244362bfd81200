-- ===== src/Cli/Tests.antt =====
-- Command lines of main.go on a machine whose runtime lists nothing, and the theorems about them.
use regcachectl.Base.{◌≡◌, refl, suc, true, false, List, [], ◌∷◌, none, some, length}
use regcachectl.Base.Results.{ok, err}
use regcachectl.Text.{Text, codes, eq}
use regcachectl.Dict.{get, put}
use regcachectl.Coverage.{Codec}
use regcachectl.Io.{Runtime}
use regcachectl.Release.OnDisk.{open_on_disk}
use regcachectl.Cli.Flags.{
  Parsed, parsed, token, parse, parse_one, take_token, defined_flag, set_flag,
}
use regcachectl.Cli.Positional.{interpret, parse_args, ends_flags}
use regcachectl.Cli.Interpret.{parse_args-interpret}
use regcachectl.Cli.Typed.{IsTyped, parse_command-IsTyped}
use regcachectl.Cli.Ends.{parse_command_total}
use regcachectl.Cli.Commands.{Command, flags_of, valid, command, is_on, Conversions}
use regcachectl.Cli.Process.{Process, Machine, returned, print_line}
use regcachectl.Cli.Run.{parse_command, run_parsed, run_command, run_pull, run}
use regcachectl.Base.Stateful.{◌>>=◌, pure, raise}
use regcachectl.Cli.Safety.{IsReader, asks_purge, run-KeepsData}
use regcachectl.Client.{Network}
use regcachectl.Release.InOrder.{warm_all_in_order}
use regcachectl.Cli.Keeps.Instances.{warm_all_in_order-Kept, open_on_disk-Kept}
use regcachectl.Fleet.Removal.{KeepsData}

abbrev conversions : Conversions
conversions = record {
  number = λ s. some 8;
  duration = λ s. some (record { negative = false; printed = codes "0s" });
}

abbrev warming : List Text
warming =
    codes "quay.io/okd/scos:1"
    ∷ codes "-j"
    ∷ codes "8"
    ∷ codes "--creds=u:p"
    ∷ codes "--"
    ∷ codes "-x"
    ∷ []

abbrev warming_read : Parsed
warming_read =
    parsed ((codes "j", codes "8") ∷ (codes "creds", codes "u:p") ∷ [])
      (codes "quay.io/okd/scos:1" ∷ codes "-x" ∷ [])

warming_means :
    interpret (valid conversions) (flags_of Command.pull_release) [] none warming
    ≡ some warming_read
unfolding interpret token get flags_of eq valid put
warming_means = refl

parse_args-interpret_example :
    parse_args
      (valid conversions)
      (flags_of Command.pull_release)
      (suc (length warming))
      []
      []
      warming
    ≡ some warming_read
parse_args-interpret_example =
    parse_args-interpret (valid conversions) (flags_of Command.pull_release) [] warming warming_read
      warming_means

-- `export -cache -- a -o b`: the value `--` is taken for the end of the flags, so that `-o b` are
-- positional arguments.
dashed_value :
    parse_args
      (valid conversions)
      (flags_of Command.export)
      6
      []
      []
      (codes "-cache" ∷ codes "--" ∷ codes "a" ∷ codes "-o" ∷ codes "b" ∷ [])
    ≡ some (parsed ((codes "cache", codes "--") ∷ []) (codes "a" ∷ codes "-o" ∷ codes "b" ∷ []))
unfolding parse_args parse_one take_token token defined_flag get flags_of eq set_flag valid
    ends_flags put
dashed_value = refl

-- every command gives nothing
abbrev silent : Runtime
silent es ev = ok []

abbrev network : Network
network = record { bad_url = λ u. none; answer = λ h g. err []; claimed = λ h k. false }

abbrev codec : Codec
codec = record {
  manifest = λ s. err [];
  index = λ s. err [];
  stream = λ s. err [];
  token = λ s. err [];
  gzip_tar = λ s x. err [];
  plain_tar = λ s x. record { members = []; failure = none };
}

abbrev machine : Machine
machine = record {
  conversions = conversions;
  runtimes = record { on_path = λ c. true; version_error = λ c. none };
  runtime = λ name. silent;
  web = record { inventory = λ es p. none; catalog = λ es p. none };
  blobcache_total = λ es p. none;
  reached = λ w p. ok 200;
  network = network;
  codec = codec;
  index_depth = 2;
  open_store = λ name e u. open_on_disk silent e network codec u;
  warm_all = λ name e jobs platform creds. warm_all_in_order e network codec platform creds;
  elapsed = λ w. codes "1s";
  os = record {
    create_error = λ w p. none;
    open_error = λ w p. codes "no such file";
    refuses = λ w p. false;
    stat_fails = λ w p. false;
    stream = λ w args input. record { written = codes "tgz"; failure = none };
  };
  ngc_key = none;
  tabulate = λ rows. codes "table";
  executable = none;
  write_error = λ p. none;
  parse_url = λ u. ok (codes "https", codes "repo.f5.com");
  mkdir_all = λ d. none;
  listen = λ p a. ok tt;
}

abbrev process : Process
process = record {
  world = record { history = []; sent = []; seen = [] };
  files = [];
  warnings = [];
}

reader : IsReader machine
reader = record {
  opens = λ name e u. open_on_disk-Kept silent u e network codec;
  warms = λ name e jobs platform creds. warm_all_in_order-Kept e network codec platform creds;
}

abbrev tearing_down : List Text
tearing_down = codes "down" ∷ codes "--runtime" ∷ codes "podman" ∷ []

no_purge : asks_purge machine tearing_down ≡ false
unfolding asks_purge parse_command command eq parse parse_one take_token token defined_flag get
    flags_of set_flag valid is_on put
no_purge = refl

run-KeepsData_example : KeepsData (run machine tearing_down process).1.world.history
run-KeepsData_example = run-KeepsData machine reader tearing_down process no_purge tt

parse_command_total_example :
    (p : Parsed) × (parse_command machine Command.down (codes "--purge" ∷ []) ≡ some p)
parse_command_total_example = parse_command_total machine Command.down (codes "--purge" ∷ [])

-- a command without flags
versions : (run machine (codes "version" ∷ []) process).0 ≡ ok returned
unfolding run run_parsed parse_command command eq run_command ◌>>=◌ print_line pure
versions = refl

pull_without_image :
    (run machine (codes "pull" ∷ []) process).0
    ≡ err (
        codes
          "pull: at least one image ref required (e.g. regcachectl pull nvcr.io/nvidia/doca/dpf-system:v26.4.0)")
unfolding run run_parsed parse_command command eq parse_args parse_one run_command run_pull raise
pull_without_image = refl

warming_parsed : parse_command machine Command.pull_release warming ≡ some warming_read
unfolding parse_command
warming_parsed =
    parse_args-interpret (valid conversions) (flags_of Command.pull_release) [] warming warming_read
      warming_means

parse_command-IsTyped_example :
    IsTyped
      (valid conversions)
      (flags_of Command.pull_release)
      ((codes "j", codes "8") ∷ (codes "creds", codes "u:p") ∷ [])
parse_command-IsTyped_example =
    parse_command-IsTyped machine Command.pull_release warming
      ((codes "j", codes "8") ∷ (codes "creds", codes "u:p") ∷ [])
      (codes "quay.io/okd/scos:1" ∷ codes "-x" ∷ []) warming_parsed
