-- ===== src/Provisioner/Scripts.antt =====
-- The shell scripts that the bastion runs: at its first boot and for a new binary.
use ephemwork.Prelude.{
  Bool, true, false, not, ◌&&◌, Option, none, some, List, [], ◌∷◌, ◌++◌, Result, ok, ◌>>◌, guard,
  any, is_empty, if◌then◌else◌,
}
use ephemwork.Text.{Text, codes, same, trim}
use ephemwork.Text.Splitting.{split_whitespace, strip_prefix}

pub data ScriptError : Type 0 where
  not_s3 : Text → ScriptError
  not_a_key empty_group : ScriptError

abbrev pub known_algorithms : List Text
known_algorithms =
    codes "ssh-rsa"
    ∷ codes "ssh-ed25519"
    ∷ codes "ecdsa-sha2-nistp256"
    ∷ codes "ecdsa-sha2-nistp384"
    ∷ codes "ecdsa-sha2-nistp521"
    ∷ codes "sk-ssh-ed25519@openssh.com"
    ∷ codes "sk-ecdsa-sha2-nistp256@openssh.com"
    ∷ []

-- The two tokens that are looked at.
unfoldable pub key_tokens : List Text → Bool
key_tokens [] = false
key_tokens (algo ∷ []) = false
key_tokens (algo ∷ body ∷ rest) = any (same algo) known_algorithms && not (is_empty body)

unfoldable pub is_ssh_public_key : Text → Bool
is_ssh_public_key s = if is_empty (trim s) then false else key_tokens (split_whitespace (trim s))

abbrev pub is_authorized : Option Text → Bool
is_authorized none = true
is_authorized (some key) = is_ssh_public_key key

unfoldable pub ssh_block : Option Text → Text
ssh_block none = []
ssh_block (some key) =
    codes "\n# Authorize the developer's SSH public key for ec2-user.\n"
    ++ codes "install -d -m 700 -o ec2-user -g ec2-user /home/ec2-user/.ssh\n"
    ++ codes "cat > /home/ec2-user/.ssh/authorized_keys <<'KEY'\n"
    ++ trim key
    ++ codes "\nKEY\n"
    ++ codes "chown ec2-user:ec2-user /home/ec2-user/.ssh/authorized_keys\n"
    ++ codes "chmod 600 /home/ec2-user/.ssh/authorized_keys\n"

-- The script up to the address of the binary.
unfoldable pub setup_head : Text
setup_head =
    codes "#!/bin/bash\n"
    ++ codes "set -euxo pipefail\n"
    ++ codes "\n"
    ++ codes "# Install nginx + AWS CLI (for fetching the bastion-server binary).\n"
    ++ codes "dnf install -y nginx awscli || yum install -y nginx awscli\n"
    ++ codes "\n"
    ++ codes "# Layout for the bastion-server binary and its persistence.\n"
    ++ codes "install -d -m 0755 /opt/ephemwork\n"
    ++ codes "install -d -m 0755 /var/lib/ephemwork\n"
    ++ codes "install -d -m 0755 /etc/nginx/conf.d\n"
    ++ codes "\n"
    ++ codes "# Pull the prebuilt arm64 binary the operator uploaded.\n"
    ++ codes "aws s3 cp \""

-- The script after the authorized key: the first nginx configuration.
unfoldable pub setup_nginx : Text
setup_nginx =
    codes "\n"
    ++ codes "# Stub config so nginx starts before any sessions exist.\n"
    ++ codes "cat > /etc/nginx/conf.d/ephemwork.conf <<'NGINX'\n"
    ++ codes "server {\n"
    ++ codes "    listen 80 default_server;\n"
    ++ codes "    listen [::]:80 default_server;\n"
    ++ codes "    location = /ephemwork-health { return 200 \"ok\\n\"; }\n"
    ++ codes "    location / { return 404 \"ephemwork bastion not yet configured\\n\"; }\n"
    ++ codes "}\n"
    ++ codes "NGINX\n"
    ++ codes "systemctl enable --now nginx\n"
    ++ codes "\n"

-- The rest: the service of the control plane.
unfoldable pub setup_service : Text
setup_service =
    codes "# Run the control plane as a system user, restart on crash.\n"
    ++ codes "cat > /etc/systemd/system/ephemwork-bastion.service <<'UNIT'\n"
    ++ codes "[Unit]\n"
    ++ codes "Description=ephemwork bastion control plane\n"
    ++ codes "After=network-online.target nginx.service\n"
    ++ codes "Wants=network-online.target\n"
    ++ codes "\n"
    ++ codes "[Service]\n"
    ++ codes "ExecStart=/opt/ephemwork/bastion-server\n"
    ++ codes "Restart=always\n"
    ++ codes "RestartSec=2\n"
    ++ codes "Environment=EPHEMWORK_REGISTRY_PATH=/var/lib/ephemwork/registry.json\n"
    ++ codes "Environment=EPHEMWORK_NGINX_CONFIG=/etc/nginx/conf.d/ephemwork.conf\n"
    ++ codes "# Quote the entire KEY=VALUE so systemd treats the multi-word\n"
    ++ codes "# command as ONE env var. Without quotes, `systemctl reload nginx`\n"
    ++ codes "# is parsed as three separate `Key=Value` tokens, the bastion-server\n"
    ++ codes "# only sees `EPHEMWORK_NGINX_RELOAD=systemctl`, and nginx is never\n"
    ++ codes "# actually reloaded after a /register.\n"
    ++ codes "Environment=\"EPHEMWORK_NGINX_RELOAD=systemctl reload nginx\"\n"
    ++ codes "Environment=RUST_LOG=info\n"
    ++ codes "\n"
    ++ codes "[Install]\n"
    ++ codes "WantedBy=multi-user.target\n"
    ++ codes "UNIT\n"
    ++ codes "systemctl daemon-reload\n"
    ++ codes "systemctl enable --now ephemwork-bastion.service\n"

unfoldable pub starts_s3 : Text → Bool
starts_s3 s = elim (strip_prefix (codes "s3://") s) [ none ↦ false | some rest ↦ true ]

unfoldable pub user_data_script : Text → Option Text → Result ScriptError Text
user_data_script s3_uri ssh_authorized_key = do
  guard (starts_s3 s3_uri) (not_s3 s3_uri)
  guard (is_authorized ssh_authorized_key) not_a_key
  ok (
      setup_head
      ++ (s3_uri
          ++ (codes "\" /opt/ephemwork/bastion-server\nchmod 0755 /opt/ephemwork/bastion-server\n"
              ++ (ssh_block ssh_authorized_key ++ (codes "\n" ++ (setup_nginx ++ setup_service))))))

unfoldable pub redeploy_script : Text → Text
redeploy_script s3_uri =
    codes "set -eux\naws s3 cp "
    ++ s3_uri
    ++ codes " /opt/ephemwork/bastion-server.new\n"
    ++ codes "chmod 0755 /opt/ephemwork/bastion-server.new\n"
    ++ codes "mv /opt/ephemwork/bastion-server.new /opt/ephemwork/bastion-server\n"
    ++ codes "systemctl restart ephemwork-bastion.service\n"
    ++ codes "sleep 2\n"
    ++ codes "systemctl is-active ephemwork-bastion\n"
    ++ codes "curl -sf http://127.0.0.1:8443/healthz && echo control-plane-ok"
