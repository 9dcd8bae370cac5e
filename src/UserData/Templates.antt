-- ===== src/UserData/Templates.antt =====
-- The constants kubeletConfigTemplate and cloudInitTemplate of pkg/providers/userdata/userdata.go, cut
-- at the places where the templates insert a value.
use karpenter_provider_upclo.Base.{String, List, [], ◌∷◌, ◌++◌}
use karpenter_provider_upclo.Base.Text.{Text, codes}

-- The lines of a constant.
unfoldable pub joined : List String → Text
joined [] = []
joined (l ∷ ls) = codes l ++ joined ls

unfoldable pub kubelet_head : Text
kubelet_head = joined (
    "apiVersion: kubelet.config.k8s.io/v1beta1\n" ∷ "kind: KubeletConfiguration\n"
    ∷ "address: ADDRESS_PLACEHOLDER\n" ∷ "providerID: PROVIDER_ID_PLACEHOLDER\n"
    ∷ "authentication:\n" ∷ "  anonymous:\n" ∷ "    enabled: false\n" ∷ "  webhook:\n"
    ∷ "    cacheTTL: 0s\n" ∷ "    enabled: true\n" ∷ "  x509:\n"
    ∷ "    clientCAFile: /etc/kubernetes/pki/ca.crt\n" ∷ "authorization:\n" ∷ "  mode: Webhook\n"
    ∷ "  webhook:\n" ∷ "    cacheAuthorizedTTL: 0s\n" ∷ "    cacheUnauthorizedTTL: 0s\n"
    ∷ "cgroupDriver: systemd\n" ∷ "clusterDNS:\n" ∷ "- 10.96.0.10\n"
    ∷ "clusterDomain: cluster.local\n"
    ∷ "containerRuntimeEndpoint: unix:///var/run/containerd/containerd.sock\n"
    ∷ "healthzBindAddress: 127.0.0.1\n" ∷ "healthzPort: 10248\n"
    ∷ "imageGCHighThresholdPercent: 85\n" ∷ "logging:\n" ∷ "  verbosity: 0\n"
    ∷ "resolvConf: /run/systemd/resolve/resolv.conf\n" ∷ "rotateCertificates: true\n"
    ∷ "staticPodPath: /etc/kubernetes/manifests\n" ∷ [])

unfoldable pub kubelet_tail : Text
kubelet_tail = joined ("\n" ∷ [])

unfoldable pub cloud_init_head : Text
cloud_init_head = joined (
    "#cloud-config\n" ∷ "\n" ∷ "manage_etc_hosts: false\n" ∷ "\n" ∷ "write_files:\n"
    ∷ "  - path: /etc/kubernetes/pki/ca.crt\n" ∷ "    encoding: b64\n" ∷ "    content: " ∷ [])

unfoldable pub after_ca_cert : Text
after_ca_cert = joined (
    "\n" ∷ "  - path: /var/lib/kubelet/pki/kubelet-client.crt\n" ∷ "    encoding: b64\n"
    ∷ "    content: " ∷ [])

unfoldable pub after_kubelet_cert : Text
after_kubelet_cert = joined (
    "\n" ∷ "  - path: /var/lib/kubelet/pki/kubelet-client.key\n" ∷ "    encoding: b64\n"
    ∷ "    content: " ∷ [])

unfoldable pub after_kubelet_key : Text
after_kubelet_key = joined (
    "\n" ∷ "    permissions: \"0600\"\n" ∷ "  - path: /etc/kubernetes/kubelet.conf\n"
    ∷ "    content: |\n" ∷ "      apiVersion: v1\n" ∷ "      kind: Config\n" ∷ "      clusters:\n"
    ∷ "      - cluster:\n" ∷ "          certificate-authority: /etc/kubernetes/pki/ca.crt\n"
    ∷ "          server: " ∷ [])

unfoldable pub after_endpoint : Text
after_endpoint = joined (
    "\n" ∷ "        name: default-cluster\n" ∷ "      contexts:\n" ∷ "      - context:\n"
    ∷ "          cluster: default-cluster\n" ∷ "          namespace: default\n"
    ∷ "          user: default-auth\n" ∷ "        name: default-context\n"
    ∷ "      current-context: default-context\n" ∷ "      users:\n" ∷ "      - name: default-auth\n"
    ∷ "        user:\n"
    ∷ "          client-certificate: /var/lib/kubelet/pki/kubelet-client-current.pem\n"
    ∷ "          client-key: /var/lib/kubelet/pki/kubelet-client-current.pem\n"
    ∷ "  - path: /var/lib/kubelet/config.yaml\n" ∷ "    content: |\n" ∷ [])

unfoldable pub after_kubelet_config : Text
after_kubelet_config = joined (
    "\n" ∷ "runcmd:\n" ∷ "  - |\n" ∷ "    # Combine cert + key (UKS convention)\n"
    ∷ "    cat /var/lib/kubelet/pki/kubelet-client.crt /var/lib/kubelet/pki/kubelet-client.key \\\n"
    ∷ "      > /var/lib/kubelet/pki/kubelet-client-current.pem\n"
    ∷ "    chmod 600 /var/lib/kubelet/pki/kubelet-client-current.pem\n" ∷ "\n"
    ∷ "    # Discover private IP via metadata service\n"
    ∷ "    for i in $(curl -s http://169.254.169.254/metadata/v1/network/interfaces/); do\n"
    ∷ "      if [ \"$(curl -s http://169.254.169.254/metadata/v1/network/interfaces/$i/type)\" = \"private\" ]; then\n"
    ∷ "        PRIVATE_IP=$(curl -s http://169.254.169.254/metadata/v1/network/interfaces/$i/ip_addresses/1/address)\n"
    ∷ "        break\n" ∷ "      fi\n" ∷ "    done\n" ∷ "\n"
    ∷ "    PROVIDER_ID=\"upcloud:////$(curl -s http://169.254.169.254/metadata/v1/instance_id)\"\n"
    ∷ "    NODE_LABELS=" ∷ [])

unfoldable pub after_node_labels : Text
after_node_labels = joined (
    "\n" ∷ "\n" ∷ "    if ! grep -q \"$(hostname)\" /etc/hosts; then\n"
    ∷ "      echo \"$PRIVATE_IP  $(hostname)\" >> /etc/hosts\n" ∷ "    fi\n" ∷ "\n"
    ∷ "    sed -i \"s|PROVIDER_ID_PLACEHOLDER|$PROVIDER_ID|\" /var/lib/kubelet/config.yaml\n"
    ∷ "    sed -i \"s|ADDRESS_PLACEHOLDER|$PRIVATE_IP|\" /var/lib/kubelet/config.yaml\n" ∷ "\n"
    ∷ "    KUBELET_EXTRA=\"--cloud-provider=external\"\n" ∷ "    if [ -n \"$NODE_LABELS\" ]; then\n"
    ∷ "      KUBELET_EXTRA=\"$KUBELET_EXTRA --node-labels=$NODE_LABELS\"\n" ∷ "    fi\n" ∷ "\n"
    ∷ "    echo \"KUBELET_EXTRA_ARGS=\\\"$KUBELET_EXTRA\\\"\" > /etc/default/kubelet\n" ∷ "\n"
    ∷ "    systemctl daemon-reload\n" ∷ "    systemctl restart kubelet\n" ∷ [])
