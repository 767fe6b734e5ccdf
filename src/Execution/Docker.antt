-- ===== src/Execution/Docker.antt =====
-- internal/execution/docker.go: a command in a container of its own.
use rojo.Base.{ℤ, pos, is_pos, Bytes, List, [], ◌∷◌, ◌++◌, bytes, is_empty, if◌then◌else◌}
use rojo.Execution.{CommandRunner}

abbrev pub default_image : Bytes
unfolding bytes
default_image = bytes "golang:1.25-alpine"

-- DockerOptions, and what NewDockerRunner keeps of them; a timeout is a number of nanoseconds.
pub record DockerOptions : Type 0 where
  pub image : Bytes
  pub memory : Bytes
  pub cpus : Bytes
  pub network : Bytes
  pub timeout : ℤ

abbrev or_else : Bytes → Bytes → Bytes
or_else s fallback = if is_empty s then fallback else s

-- NewDockerRunner
unfoldable pub new_docker_runner : DockerOptions → DockerOptions
unfolding bytes
new_docker_runner opts = record {
  image = or_else opts.image default_image;
  memory = or_else opts.memory (bytes "512m");
  cpus = or_else opts.cpus (bytes "1");
  network = or_else opts.network (bytes "none");
  timeout = if is_pos opts.timeout then opts.timeout else pos 300000000000;
}

unfoldable pub docker_args : DockerOptions → Bytes → Bytes → List Bytes → List Bytes
unfolding bytes
docker_args d dir command args =
    (bytes "run"
      ∷ bytes "--rm"
      ∷ bytes "--memory"
      ∷ d.memory
      ∷ bytes "--cpus"
      ∷ d.cpus
      ∷ bytes "--network"
      ∷ d.network
      ∷ bytes "--workdir"
      ∷ bytes "/workspace"
      ∷ bytes "-v"
      ∷ (dir ++ bytes ":/workspace")
      ∷ d.image
      ∷ command
      ∷ [])
    ++ args

-- Run; `inner` makes of a timeout the runner under that deadline.
unfoldable pub docker_run : {W : Type 0} → (ℤ → CommandRunner W) → DockerOptions → CommandRunner W
unfolding bytes docker_args
docker_run inner d dir command args w =
    inner d.timeout [] (bytes "docker") (docker_args d dir command args) w
