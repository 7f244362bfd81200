-- ===== src/Cli/Usage.antt =====
-- `usage` of main.go.
use regcachectl.Base.{◌++◌}
use regcachectl.Text.{Text, utf8}

-- what is written to the standard error output
unfoldable pub usage_text : Text
usage_text =
    utf8 "regcachectl — local pull-through cache fleet for k3s-in-docker clusters\n"
    ++ utf8 "\n"
    ++ utf8 "USAGE:\n"
    ++ utf8 "  regcachectl <command> [flags]\n"
    ++ utf8 "\n"
    ++ utf8 "COMMANDS:\n"
    ++ utf8 "  up                 create/start the cache fleet (idempotent; holds no creds)\n"
    ++ utf8 "  down               stop & remove the fleet (--purge also drops cached blobs)\n"
    ++ utf8 "  status             show per-cache state, disk use, reachability\n"
    ++ utf8 "  list (ls)          list cached objects + space (-objects for full inventory)\n"
    ++ utf8 "  pull <ref>…        warm a cache with EVERY platform of an image (multi-arch),\n"
    ++ utf8 "                     so export/import carries all arches (nvcr.io: needs an NGC\n"
    ++ utf8 "                     key in ~/.ngc or --creds '$oauthtoken:<key>')\n"
    ++ utf8 "  pull-release <ref> [-j 4] [--platform linux/amd64]\n"
    ++ utf8 "                     warm the caches with an OKD/OpenShift release and every\n"
    ++ utf8 "                     payload image it lists, then verify it is on disk\n"
    ++ utf8 "                     (re-warming what is not); flags go before or after <ref>.\n"
    ++ utf8 "                     list --okd-release <ref> reports how much is cached\n"
    ++ utf8 "  export [-o f.tgz]  bundle every cache's data into one .tgz to copy elsewhere\n"
    ++ utf8 "  import <f.tgz>     unpack a bundle into this host's cache volumes (seeds offline)\n"
    ++ utf8 "  gc                 run registry garbage-collect in each public cache (stops each\n"
    ++ utf8 "                     for the run; keeps digest-pulled images unless\n"
    ++ utf8 "                     --delete-untagged)\n"
    ++ utf8 "  print-registries   emit the mirror config to wire nodes: --format k3s\n"
    ++ utf8 "                     (registries.yaml, default) | crio (registries.conf) |\n"
    ++ utf8 "                     okd (ImageDigestMirrorSet/ImageTagMirrorSet/Image)\n"
    ++ utf8 "  serve-blobcache    (internal) run the credential-free blob cache; used by the\n"
    ++ utf8 "                     repo.f5.com container, not run by hand\n"
    ++ utf8 "  install-systemd    print/write a systemd unit so the fleet survives reboot\n"
    ++ utf8 "  version            print version\n"
    ++ utf8 "\n"
    ++ utf8 "COMMON FLAGS:\n"
    ++ utf8 "  --runtime docker|podman   (autodetect if empty)\n"
    ++ utf8 "  --port-base 5000          host port of the first cache\n"
    ++ utf8 "\n"
    ++ utf8 "The fleet stores NO registry credentials. Public registries are cached\n"
    ++ utf8 "anonymously; repo.f5.com is a credential-free blob cache — each client (k3s\n"
    ++ utf8 "cluster) supplies its own FAR key via its registries.yaml, so different BNK\n"
    ++ utf8 "versions can use different keys against the same cache.\n"
    ++ utf8 "\n"
    ++ utf8 "EXAMPLE:\n"
    ++ utf8 "  make blobcache-image          # once, builds the repo.f5.com blob-cache image\n"
    ++ utf8 "  regcachectl up\n"
    ++ utf8 "  regcachectl print-registries > registries.yaml\n"
    ++ utf8 "  regcachectl status\n"
