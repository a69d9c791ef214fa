-- ===== src/Config/Printed.antt =====
-- The String and GoString methods of AuthOpts in pkg/config/config.go.
use cloud_provider_opentelek.Base.{◌≡◌, refl, Bool, ◌++◌, if◌then◌else◌}
use cloud_provider_opentelek.Text.{Text, codes}
use cloud_provider_opentelek.Config.{AuthOpts}

abbrev format_bool : Bool → Text
format_bool b = if b then codes "true" else codes "false"

-- `AuthOpts.String`; `%q` is the parameter `quote`.
unfoldable pub auth_opts_string : (Text → Text) → AuthOpts → Text
auth_opts_string quote o =
    codes "AuthOpts{AuthURL:"
    ++ (quote o.auth_url
        ++ (codes ", Username:"
            ++ (quote o.username
                ++ (codes ", AccessKey:"
                    ++ (quote o.access_key
                        ++ (codes ", DomainName:"
                            ++ (quote o.domain_name
                                ++ (codes ", DomainID:"
                                    ++ (quote o.domain_id
                                        ++ (codes ", TenantID:"
                                            ++ (quote o.tenant_id
                                                ++ (codes ", TenantName:"
                                                    ++ (quote o.tenant_name
                                                        ++ (codes ", ProjectID:"
                                                            ++ (quote o.project_id
                                                            ++ (codes ", Region:"
                                                            ++ (quote o.region
                                                            ++ (codes ", CAFile:"
                                                            ++ (quote o.ca_file
                                                            ++ (codes ", TLSInsecure:"
                                                            ++ (format_bool o.tls_insecure
                                                            ++ codes "}")))))))))))))))))))))

-- `AuthOpts.GoString`
unfoldable pub auth_opts_go_string : (Text → Text) → AuthOpts → Text
auth_opts_go_string quote o = auth_opts_string quote o

-- Neither method shows the password, the secret key or the security token: options that differ in these
-- alone print the same.
pub auth_opts_string_secret :
    (quote : Text → Text) (o : AuthOpts) (password secret_key security_token : Text)
    → (auth_opts_string quote (record o {
      password = password;
      secret_key = secret_key;
      security_token = security_token;
    })
        ≡ auth_opts_string quote o)
      × (auth_opts_go_string quote (record o {
        password = password;
        secret_key = secret_key;
        security_token = security_token;
      })
          ≡ auth_opts_go_string quote o)
unfolding auth_opts_string auth_opts_go_string
auth_opts_string_secret quote o password secret_key security_token = (refl, refl)
